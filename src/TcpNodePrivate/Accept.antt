-- ===== src/TcpNodePrivate/Accept.antt =====
-- src/TcpNodePrivate.cpp, _listenThreadJob: a new connection is accepted. `make_peer` and `next_id`
-- serve _connectThreadJob too.
use simpwire.Prelude.{ℕ, true, not, ◌&&◌, none, some, Option, ◌+◌, ◌%◌, ◌^◌, codes, ◌==◌}
use simpwire.ISocket.{ISocket}
use simpwire.PeerPrivate.{PeerPrivate, new_peer_private, set_identity, set_socket, set_valid}
use simpwire.TcpNodePrivate.State.{Callback, of_peer, of_message}
use simpwire.TcpNodePrivate.Monad.{
  Action, pure, ◌>>=◌, ◌>>◌, gets, modify, when, lock_callback, unlock_callback, invoke,
  call_socket, get_socket, adopt_socket,
}
use simpwire.TcpNodePrivate.Map.{insert}
use simpwire.TcpNodePrivate.Messages.{create_error_message}
use simpwire.TcpNodePrivate.Notify.{notify}

-- uint64_t
abbrev pub wrap64 : ℕ → ℕ
wrap64 n = n % 2 ^ 64

module _ {I : ISocket} where
  -- The identity and the socket of a peer that has just been connected. The three calls are made in
  -- the order in which they stand; C++ leaves the order of arguments to the compiler.
  unfoldable pub make_peer : ℕ → ℕ → Action I PeerPrivate
  make_peer count sock = do
    ip ← call_socket I.peer_ip_address sock
    port ← call_socket I.peer_port sock
    name ← call_socket I.peer_name sock
    pure (set_valid true (set_socket sock (set_identity count ip port name new_peer_private)))

  -- `++m_connection_counter`
  unfoldable pub next_id : Action I ℕ
  next_id = do
    modify λ s. record s { connection_counter = wrap64 (s.connection_counter + 1) }
    gets λ s. s.connection_counter

  unfoldable pub report_accept_error : Callback → ℕ → Action I (Unit {0})
  report_accept_error none l = pure tt
  report_accept_error (some f) l = do
    errmsg ← create_error_message (codes "Listen Error") (codes "Failed to accept") (some l)
    unlock_callback
    invoke f (of_message errmsg)
    lock_callback

  unfoldable pub accepted : I.Sock → Action I (Unit {0})
  accepted o = do
    new_peer ← adopt_socket o
    current_count ← next_id
    np ← make_peer current_count new_peer
    modify λ s. record s { peers = insert current_count np s.peers }
    lock_callback
    f ← gets λ s. s.callbacks.new_peer_connected
    notify f (of_peer np)
    unlock_callback

  unfoldable pub accept_failed : ℕ → Action I (Unit {0})
  accept_failed l = do
    lock_callback
    f ← gets λ s. s.callbacks.listen_error
    report_accept_error f l
    unlock_callback

  unfoldable pub nothing_accepted : ℕ → Action I (Unit {0})
  nothing_accepted l = do n ← call_socket I.get_last_errno l; when (not (n == 0)) (accept_failed l)

  unfoldable pub after_accept : ℕ → Option I.Sock → Action I (Unit {0})
  after_accept l (some o) = accepted o
  after_accept l none = nothing_accepted l

  unfoldable pub accept_from : ℕ → Action I (Unit {0})
  accept_from l = do r ← call_socket I.accept l; after_accept l r

  -- All three tests are made here, whether or not the first fails: they change nothing.
  unfoldable pub accept_new : Action I (Unit {0})
  accept_new = do
    l ← gets λ s. s.listener
    listener ← get_socket I.is_listener l
    listening ← get_socket I.is_listening l
    available ← gets λ s. s.listener_available
    when (listener && listening && available) (accept_from l)
