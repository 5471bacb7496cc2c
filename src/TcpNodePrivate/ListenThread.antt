-- ===== src/TcpNodePrivate/ListenThread.antt =====
-- src/TcpNodePrivate.cpp, _listenThreadJob: one turn of its loop is `listen_enable`, the wait on a
-- condition variable and `listen_serve`. While a turn holds the mutex of the data no other thread
-- changes what it reads. The sleep at the end of a turn is left out: it is where other threads run.
use simpwire.Prelude.{Bool, not, ◌||◌, length, ◌==◌, if◌then◌else◌}
use simpwire.ISocket.{ISocket}
use simpwire.TcpNodePrivate.State.{State, ThreadPc}
use simpwire.TcpNodePrivate.Monad.{
  Action, pure, ◌>>=◌, ◌>>◌, gets, modify, when, lock_data, unlock_data,
}
use simpwire.TcpNodePrivate.Listener.{listen_enable}
use simpwire.TcpNodePrivate.Accept.{accept_new}
use simpwire.TcpNodePrivate.Receive.{receive_all}
use simpwire.TcpNodePrivate.Remove.{delete_next}

module _ {I : ISocket} where
  unfoldable pub listen_serve : Action I (Unit {0})
  listen_serve = do
    lock_data
    accept_new
    ps ← gets λ s. s.peers
    ps' ← receive_all ps
    modify λ s. record s { peers = ps' }
    delete_next
    unlock_data

  -- The condition that _pauseUntilPeersOrListenerAvailable waits for.
  unfoldable pub listen_awake : State I → Bool
  listen_awake s =
      not (length s.peers == 0)
      || s.listener_available
      || s.destructor_called
      || s.changing_listener
      || s.wakeup_listen_thread

  unfoldable pub listen_turn_at : ThreadPc → Action I (Unit {0})
  listen_turn_at ThreadPc.not_started = pure tt
  listen_turn_at ThreadPc.finished = pure tt
  listen_turn_at ThreadPc.asleep = pure tt
  listen_turn_at ThreadPc.at_top = do
    running ← gets λ s. s.listen_thread_running
    when running listen_enable
    modify λ s. record s { listen_thread = if running then ThreadPc.waiting else ThreadPc.finished }
  listen_turn_at ThreadPc.waiting = do
    go ← gets listen_awake
    stop ← gets λ s. s.destructor_called
    if not go
        then modify (λ s. record s { listen_thread = ThreadPc.asleep })
        else if stop
        then modify (λ s. record s { listen_thread = ThreadPc.finished })
        else (do listen_serve; modify λ s. record s { listen_thread = ThreadPc.at_top })

  -- The next turn of the listen thread. One that is asleep is woken by a notification only.
  unfoldable pub listen_turn : Action I (Unit {0})
  listen_turn s = listen_turn_at s.listen_thread s
