-- ===== src/TcpNodePrivate/Destructor.antt =====
-- src/TcpNodePrivate.cpp, ~TcpNodePrivate. Between its parts the destructor waits for the end of a
-- thread: the turns that the thread goes on to take are steps of their own.
use simpwire.Prelude.{true, false, if◌then◌else◌}
use simpwire.ISocket.{ISocket}
use simpwire.TcpNodePrivate.State.{State, woken, connect_woken}
use simpwire.TcpNodePrivate.Monad.{Action, ◌>>=◌, ◌>>◌, gets, call_socket, delete_socket}
use simpwire.TcpNodePrivate.Requests.{disconnect_all}

module _ {I : ISocket} where
  -- Up to the first join: the flags and the notification, if the thread runs.
  unfoldable pub stop_connect_thread : State I → State I
  stop_connect_thread s = record s {
    destructor_called = true;
    connect_thread_running = false;
    connect_thread =
        if s.connect_thread_running then connect_woken s.connect_thread else s.connect_thread;
  }

  unfoldable pub stop_send_thread : State I → State I
  stop_send_thread s = record s {
    send_thread_running = false;
    send_thread = if s.send_thread_running then woken s.send_thread else s.send_thread;
  }

  -- Up to the last join.
  unfoldable pub stop_listen_thread : State I → State I
  stop_listen_thread s = record s {
    listen_thread_running = false;
    listen_thread = if s.listen_thread_running then woken s.listen_thread else s.listen_thread;
  }

  -- What follows the last join.
  unfoldable pub after_joins : Action I (Unit {0})
  after_joins = do disconnect_all; l ← gets λ s. s.listener; call_socket I.close l; delete_socket l
