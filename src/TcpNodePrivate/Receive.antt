-- ===== src/TcpNodePrivate/Receive.antt =====
-- src/TcpNodePrivate.cpp, _listenThreadJob: data is received from all connections.
use simpwire.Prelude.{ℕ, none, some, Option, [], ◌∷◌, codes, if◌then◌else◌}
use simpwire.ISocket.{ISocket, Bytes, ReceiveResult}
use simpwire.PeerPrivate.{
  PeerPrivate, peer_disconnected_themself, peer_was_disconnected_due_to_error, schedule_delete,
  set_error_message,
}
use simpwire.TcpNodePrivate.State.{PeerList, of_bytes}
use simpwire.TcpNodePrivate.Monad.{
  Action, pure, ◌>>=◌, ◌>>◌, gets, lock_callback, unlock_callback, call_socket, get_socket,
}
use simpwire.TcpNodePrivate.Messages.{create_error_message}
use simpwire.TcpNodePrivate.Notify.{notify}

module _ {I : ISocket} where
  -- What a peer's socket has for us; a peer without a connected socket has none.
  unfoldable pub poll_socket : Option ℕ → Action I (ReceiveResult × Bytes)
  poll_socket none = pure (ReceiveResult.error_no_connection, [])
  poll_socket (some psock) = do
    connected ← get_socket I.is_connected psock
    if connected
        then call_socket (I.receive []) psock
        else pure (ReceiveResult.error_no_connection, [])

  -- The `switch` on the result. The mutex of the callbacks is held.
  unfoldable pub handle_received : ReceiveResult → Bytes → PeerPrivate → Action I PeerPrivate
  handle_received ReceiveResult.ok recdata p = do
    f ← gets λ s. s.callbacks.received
    notify f (of_bytes p recdata)
    pure p
  handle_received ReceiveResult.error_no_connection recdata p = do
    m ← create_error_message (codes "Receive Error") (codes "Socket is not connected.") none
    pure (set_error_message m (schedule_delete peer_was_disconnected_due_to_error p))
  handle_received ReceiveResult.error_is_listener recdata p = do
    m ← create_error_message (codes "Receive Error") (codes "Socket is a listener.") none
    pure (set_error_message m (schedule_delete peer_was_disconnected_due_to_error p))
  handle_received ReceiveResult.error_peer_disconnected recdata p =
      pure (schedule_delete peer_disconnected_themself p)
  handle_received ReceiveResult.error_system recdata p = do
    m ← create_error_message (codes "Receive Error") (codes "Failed to receive.") p.socket
    pure (set_error_message m (schedule_delete peer_was_disconnected_due_to_error p))
  handle_received ReceiveResult.error_nothing_received recdata p = pure p

  unfoldable pub receive_one : PeerPrivate → Action I PeerPrivate
  receive_one p = if p.to_be_deleted then pure p else do
    (recres, recdata) ← poll_socket p.socket
    lock_callback
    p' ← handle_received recres recdata p
    unlock_callback
    pure p'

  -- The peers are changed in place, one after the other.
  unfoldable pub receive_all : PeerList → Action I PeerList
  receive_all [] = pure []
  receive_all ((k, p) ∷ ps) = do p' ← receive_one p; ps' ← receive_all ps; pure ((k, p') ∷ ps')
