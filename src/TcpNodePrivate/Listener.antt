-- ===== src/TcpNodePrivate/Listener.antt =====
-- src/TcpNodePrivate.cpp, the first part of a turn of _listenThreadJob: the listener is started or
-- stopped as the user asked.
use simpwire.Prelude.{ℕ, true, false, not, ◌&&◌, ◌||◌, none, some, codes, if◌then◌else◌}
use simpwire.ISocket.{ISocket}
use simpwire.TcpNodePrivate.State.{Callback, nothing, of_port, of_message}
use simpwire.TcpNodePrivate.Monad.{
  Action, pure, ◌>>=◌, ◌>>◌, gets, modify, when, lock_data, unlock_data, lock_callback,
  unlock_callback, invoke, call_socket, get_socket,
}
use simpwire.TcpNodePrivate.Messages.{create_error_message}
use simpwire.TcpNodePrivate.Notify.{notify}

module _ {I : ISocket} where
  -- A listen error; the message is made only if there is a callback.
  unfoldable pub report_listen_error : Callback → ℕ → Action I (Unit {0})
  report_listen_error none l = pure tt
  report_listen_error (some f) l = do
    errmsg ←
        create_error_message (codes "Listen Error") (codes "Failed to create listener") (some l)
    unlock_callback
    invoke f (of_message errmsg)
    lock_callback

  unfoldable pub listen_failed : ℕ → Action I (Unit {0})
  listen_failed l = do
    lock_callback
    f ← gets λ s. s.callbacks.listen_error
    report_listen_error f l
    modify λ s. record s { listener_available = false; listening_enabled = false }
    unlock_callback

  -- The port is read only if there is a callback; reading it changes nothing.
  unfoldable pub listen_started : ℕ → Action I (Unit {0})
  listen_started l = do
    modify λ s. record s { listener_available = true }
    lock_callback
    f ← gets λ s. s.callbacks.started_listening
    portnum ← get_socket I.listen_port l
    notify f (of_port portnum)
    unlock_callback

  unfoldable pub start_listener : Action I (Unit {0})
  start_listener = do
    lock_data
    l ← gets λ s. s.listener
    port ← gets λ s. s.portnumber
    version ← gets λ s. s.ip_version
    success ← call_socket (I.listen port version) l
    if success then listen_started l else listen_failed l
    modify λ s. record s { changing_listener = false }
    unlock_data

  -- Here the mutex of the data is given up for the callback, and that of the callbacks is held.
  unfoldable pub notify_stopped : Callback → Action I (Unit {0})
  notify_stopped none = pure tt
  notify_stopped (some f) = do unlock_data; invoke f nothing; lock_data

  unfoldable pub stop_listener : Action I (Unit {0})
  stop_listener = do
    lock_data
    l ← gets λ s. s.listener
    call_socket I.close l
    modify λ s. record s { listener_available = false }
    lock_callback
    f ← gets λ s. s.callbacks.stopped_listening
    notify_stopped f
    unlock_callback
    unlock_data

  -- `&&` binds tighter than `||` in the first test.
  unfoldable pub listen_enable : Action I (Unit {0})
  listen_enable = do
    start ← gets λ s. (s.listening_enabled && not s.listener_available) || s.changing_listener
    stop ← gets λ s. not s.listening_enabled && s.listener_available
    if start then start_listener else when stop stop_listener
    modify λ s. record s { wakeup_listen_thread = false }
