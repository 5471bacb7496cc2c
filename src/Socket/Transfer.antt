-- ===== src/Socket/Transfer.antt =====
-- src/Socket.cpp: receiving and sending.
use simpwire.Prelude.{ℕ, ◌&&◌, ◌||◌, not, Option, none, some, [], ◌∷◌, ◌==◌, if◌then◌else◌}
use simpwire.ISocket.{
  Bytes, ReceiveResult, ok, error_no_connection, error_peer_disconnected, error_is_listener,
  error_nothing_received, error_system,
}
use simpwire.Socket.Os.{Os}
use simpwire.Socket.State.{M, pure, ◌>>=◌, ◌>>◌, gets, asks, sys, set_errno, clear_errno, close}

module _ (os : Os) where
  -- What the result of `recv` means; `n` is errno after the call.
  unfoldable pub classify : Option Bytes → ℕ → ReceiveResult
  classify none n =
      if n == os.eagain || n == os.ewouldblock then error_nothing_received else error_system
  classify (some []) n = error_peer_disconnected
  classify (some (b ∷ bs)) n = ok

  -- The caller's vector is replaced only if something was received.
  unfoldable pub received_into : Bytes → Option Bytes → Bytes
  received_into old none = old
  received_into old (some []) = old
  received_into old (some (b ∷ bs)) = b ∷ bs

  -- `receive_end`
  unfoldable pub receive_end : ReceiveResult → M os.World (Unit {0})
  unfolding close set_errno clear_errno
  receive_end error_system = do close os; set_errno os
  receive_end _ = clear_errno

  -- Socket::receive
  unfoldable pub receive : Bytes → M os.World (ReceiveResult × Bytes)
  unfolding classify received_into receive_end
  receive old = do
    is_listener ← gets λ s. s.listener
    is_connected ← gets λ s. s.connected
    if is_listener
        then (do receive_end error_is_listener; pure (error_is_listener, old))
        else if not is_connected
        then (do receive_end error_no_connection; pure (error_no_connection, old))
        else (do
          fd ← gets λ s. s.socket_fd
          size ← gets λ s. s.receive_buffer_size
          recv_res ← sys (os.recv fd size)
          n ← asks os.errno
          receive_end (classify recv_res n)
          pure (classify recv_res n, received_into old recv_res))

  -- Socket::send: the number of bytes that the system took, and 0 on every error.
  unfoldable pub send : Bytes → M os.World ℕ
  unfolding set_errno clear_errno
  send bytes = do
    is_listener ← gets λ s. s.listener
    is_connected ← gets λ s. s.connected
    if is_connected && not is_listener
        then (do
          fd ← gets λ s. s.socket_fd
          bytes_sent ← sys (os.send fd bytes)
          elim bytes_sent [ some n ↦ do clear_errno; pure n | none ↦ do set_errno os; pure 0 ])
        else pure 0
