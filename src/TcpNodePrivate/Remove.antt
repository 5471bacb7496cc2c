-- ===== src/TcpNodePrivate/Remove.antt =====
-- src/TcpNodePrivate.cpp, _listenThreadJob: the next peer that is to be deleted is removed.
use simpwire.Prelude.{ℕ, none, some, Option, [], ◌∷◌, if◌then◌else◌}
use simpwire.ISocket.{ISocket}
use simpwire.Store.{ok, fault}
use simpwire.PeerPrivate.{
  PeerPrivate, peer_disconnected_themself, peer_was_disconnected,
  peer_was_disconnected_due_to_error, destroy_socket,
}
use simpwire.TcpNodePrivate.State.{PeerList, of_peer, of_faulty}
use simpwire.TcpNodePrivate.Monad.{
  Action, pure, ◌>>=◌, ◌>>◌, gets, modify, lock_callback, unlock_callback,
}
use simpwire.TcpNodePrivate.Map.{erase}
use simpwire.TcpNodePrivate.Notify.{notify}

-- The first peer in the order of iteration that is to be deleted.
unfoldable pub next_scheduled : PeerList → Option (ℕ × PeerPrivate)
next_scheduled [] = none
next_scheduled ((k, p) ∷ ps) = if p.to_be_deleted then some (k, p) else next_scheduled ps

module _ {I : ISocket} where
  -- Which callback a removed peer gets. The mutex of the callbacks is held.
  unfoldable pub notify_removed : PeerPrivate → Action I (Unit {0})
  notify_removed temp = elim temp.disconn [
    | peer_disconnected_themself ↦ do
      f ← gets λ s. s.callbacks.peer_disconnected
      notify f (of_peer temp)
    | peer_was_disconnected ↦ do
      f ← gets λ s. s.callbacks.closed_connection
      notify f (of_peer temp)
    | peer_was_disconnected_due_to_error ↦ do
      f ← gets λ s. s.callbacks.faulty_connection_closed
      notify f (of_faulty temp temp.errmsg)
  ]

  unfoldable pub destroy_peer_socket : PeerPrivate → Action I (Unit {0})
  destroy_peer_socket p s = elim (destroy_socket p s.store) [
    | fault e ↦ fault e
    | ok (_, m) ↦ ok (tt, record s { store = m })
  ]

  -- `temp` is the copy made before the socket is destroyed.
  unfoldable pub remove_peer : ℕ → PeerPrivate → Action I (Unit {0})
  remove_peer k temp = do
    destroy_peer_socket temp
    modify λ s. record s { peers = erase k s.peers }
    lock_callback
    notify_removed temp
    unlock_callback

  unfoldable pub delete_found : Option (ℕ × PeerPrivate) → Action I (Unit {0})
  delete_found none = pure tt
  delete_found (some (k, p)) = remove_peer k p

  -- One peer at most.
  unfoldable pub delete_next : Action I (Unit {0})
  delete_next = do r ← gets λ s. next_scheduled s.peers; delete_found r
