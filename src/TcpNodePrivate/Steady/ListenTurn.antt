-- ===== src/TcpNodePrivate/Steady/ListenTurn.antt =====
-- src/TcpNodePrivate.cpp: what a turn of the listen thread does before and after its wait.
use simpwire.Prelude.{ℕ, none, some, Option, [], ◌∷◌, arith}
use simpwire.ISocket.{ISocket, Bytes, ReceiveResult}
use simpwire.PeerPrivate.{PeerPrivate}
use simpwire.TcpNodePrivate.State.{Callback, PeerList}
use simpwire.TcpNodePrivate.Monad.{lock_callback, unlock_callback, invoke}
use simpwire.TcpNodePrivate.Notify.{notify}
use simpwire.TcpNodePrivate.Listener.{
  report_listen_error, listen_failed, listen_started, start_listener, notify_stopped, stop_listener,
  listen_enable,
}
use simpwire.TcpNodePrivate.Accept.{
  report_accept_error, accepted, accept_failed, nothing_accepted, after_accept, accept_from,
  accept_new,
}
use simpwire.TcpNodePrivate.Receive.{poll_socket, handle_received, receive_one, receive_all}
use simpwire.TcpNodePrivate.Remove.{
  notify_removed, destroy_peer_socket, remove_peer, delete_found, delete_next,
}
use simpwire.TcpNodePrivate.ListenThread.{listen_serve}
use simpwire.TcpNodePrivate.Steady.{Steady, steady, Steady-bind, Steady-pure}
use simpwire.TcpNodePrivate.Steady.Notices.{notices}
use simpwire.TcpNodePrivate.Steady.Attempt.{make_peer-Steady, next_id-Steady}

module _ {I : ISocket} where
  report_listen_error-Steady : (f : Callback) (l : ℕ) → Steady (report_listen_error {I = I} f l)
  unfolding report_listen_error
  report_listen_error-Steady none l = search notices
  report_listen_error-Steady (some f) l = search notices depth 8

  listen_failed-Steady : (l : ℕ) → Steady (listen_failed {I = I} l)
  unfolding listen_failed
  listen_failed-Steady l = search (notices, report_listen_error-Steady) depth 10

  listen_started-Steady : (l : ℕ) → Steady (listen_started {I = I} l)
  unfolding listen_started
  listen_started-Steady l = search notices depth 10

  start_listener-Steady : Steady (start_listener {I = I})
  unfolding start_listener
  start_listener-Steady = search (steady, listen_started-Steady, listen_failed-Steady) depth 14

  notify_stopped-Steady : (f : Callback) → Steady (notify_stopped {I = I} f)
  unfolding notify_stopped
  notify_stopped-Steady none = search steady
  notify_stopped-Steady (some f) = search steady depth 8

  stop_listener-Steady : Steady (stop_listener {I = I})
  unfolding stop_listener
  stop_listener-Steady = search (steady, notify_stopped-Steady) depth 14

  pub listen_enable-Steady : Steady (listen_enable {I = I})
  unfolding listen_enable
  listen_enable-Steady = search (steady, start_listener-Steady, stop_listener-Steady) depth 10

  report_accept_error-Steady : (f : Callback) (l : ℕ) → Steady (report_accept_error {I = I} f l)
  unfolding report_accept_error
  report_accept_error-Steady none l = search notices
  report_accept_error-Steady (some f) l = search notices depth 8

  accepted-Steady : (o : I.Sock) → Steady (accepted {I = I} o)
  unfolding accepted
  accepted-Steady o = search (notices, make_peer-Steady, next_id-Steady) depth 14

  accept_failed-Steady : (l : ℕ) → Steady (accept_failed {I = I} l)
  unfolding accept_failed
  accept_failed-Steady l = search (steady, report_accept_error-Steady) depth 10

  after_accept-Steady : (l : ℕ) (r : Option I.Sock) → Steady (after_accept {I = I} l r)
  unfolding after_accept nothing_accepted
  after_accept-Steady l none = search (steady, accept_failed-Steady) depth 8
  after_accept-Steady l (some o) = accepted-Steady o

  accept_new-Steady : Steady (accept_new {I = I})
  unfolding accept_new accept_from
  accept_new-Steady = search (steady, after_accept-Steady) depth 12

  poll_socket-Steady : (sock : Option ℕ) → Steady (poll_socket {I = I} sock)
  unfolding poll_socket
  poll_socket-Steady none = search steady
  poll_socket-Steady (some a) = search steady depth 8

  handle_received-Steady :
      (r : ReceiveResult) (dat : Bytes) (p : PeerPrivate) → Steady (handle_received {I = I} r dat p)
  unfolding handle_received
  handle_received-Steady ReceiveResult.ok dat p = search notices depth 8
  handle_received-Steady ReceiveResult.error_no_connection dat p = search notices depth 8
  handle_received-Steady ReceiveResult.error_is_listener dat p = search notices depth 8
  handle_received-Steady ReceiveResult.error_peer_disconnected dat p = search notices depth 8
  handle_received-Steady ReceiveResult.error_system dat p = search notices depth 8
  handle_received-Steady ReceiveResult.error_nothing_received dat p = search notices depth 8

  receive_one-Steady : (p : PeerPrivate) → Steady (receive_one {I = I} p)
  unfolding receive_one
  receive_one-Steady p = search (steady, poll_socket-Steady, handle_received-Steady) depth 12

  receive_all-Steady : (ps : PeerList) → Steady (receive_all {I = I} ps)
  unfolding receive_all
  receive_all-Steady [] = search steady
  receive_all-Steady ((k, p) ∷ ps) =
      Steady-bind _ _ (receive_one-Steady p)
        λ p'. Steady-bind _ _ (receive_all-Steady ps) λ ps'. Steady-pure _

  notify_removed-Steady : (p : PeerPrivate) → Steady (notify_removed {I = I} p)
  unfolding notify_removed notify lock_callback unlock_callback invoke
  notify_removed-Steady p = record { at = λ s. ground arith }

  destroy-Steady : (p : PeerPrivate) → Steady (destroy_peer_socket {I = I} p)
  unfolding destroy_peer_socket
  destroy-Steady p = record { at = λ s. ground arith }

  delete_found-Steady : (r : Option (ℕ × PeerPrivate)) → Steady (delete_found {I = I} r)
  unfolding delete_found remove_peer
  delete_found-Steady none = search steady
  delete_found-Steady (some (k, p)) =
      search (steady, destroy-Steady, notify_removed-Steady) depth 10

  delete_next-Steady : Steady (delete_next {I = I})
  unfolding delete_next
  delete_next-Steady = search (steady, delete_found-Steady) depth 8

  pub listen_serve-Steady : Steady (listen_serve {I = I})
  unfolding listen_serve
  listen_serve-Steady =
      search (steady, accept_new-Steady, receive_all-Steady, delete_next-Steady) depth 14
