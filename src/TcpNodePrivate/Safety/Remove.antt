-- ===== src/TcpNodePrivate/Safety/Remove.antt =====
-- The next peer that is to be deleted is removed, and its socket destroyed.
use simpwire.Prelude.{
  ℕ, Bool, true, false, ◌≡◌, ◌≢◌, ap, ◌∙◌, refl, sym, none, some, Option, arith, Option-cases, inl,
  inr,
}
use simpwire.ISocket.{ISocket}
use simpwire.Store.{Store, ok, call, delete_object, update}
use simpwire.PeerPrivate.{
  PeerPrivate, DisconnectType, peer_disconnected_themself, peer_was_disconnected,
  peer_was_disconnected_due_to_error, destroy_socket,
}
use simpwire.TcpNodePrivate.State.{State, PeerList}
use simpwire.TcpNodePrivate.Monad.{unlock_callback}
use simpwire.TcpNodePrivate.Map.{erase}
use simpwire.TcpNodePrivate.Remove.{
  next_scheduled, notify_removed, destroy_peer_socket, remove_peer, delete_next, delete_found,
}
use simpwire.TcpNodePrivate.Contracts.{Ends-mono, Ends, Holds, Ends-bind, Frame}
use simpwire.TcpNodePrivate.Locks.{Ends-lock_callback}
use simpwire.TcpNodePrivate.Frames.{notify-Frame}
use simpwire.TcpNodePrivate.Invariant.{HasSocket}
use simpwire.TcpNodePrivate.Ownership.{Except, next_scheduled-Sound, Owned-erase}
use simpwire.TcpNodePrivate.Sections.{Sect-callback, Sect-Frame, Sect}

module _ {I : ISocket} where
  -- A live socket is closed and deleted, and every other object stays.
  pub destroy_socket-Except :
      (p : PeerPrivate) (a : ℕ) (m : Store I)
      → p.socket ≡ some a
      → m.cell a ≢ none
      → (n : Store I) × (destroy_socket p m ≡ ok (record p { socket = none }, n))
        × (n.cell a ≡ none)
        × Except a m n
  unfolding destroy_socket call delete_object
  destroy_socket-Except p a m e live = elim (Option-cases (m.cell a)) [
    | inl none_there ↦ absurd (live none_there)
    | inr (o, there) ↦
        let closed = I.close o m.world in
        (
          record m {
            cell = update (update m.cell a (some closed.1)) a none;
            world = I.destroy closed.1 closed.2;
          },
          ground arith,
          ground arith,
          record { keeps = λ b away h. ground arith; grows = omega arith },
        )
  ]

  notify_removed-Frame :
      (p : PeerPrivate) (s : State I)
      → s.callback_access ≡ true
      → Ends (λ _ t. Frame s t) (notify_removed p s)
  unfolding notify_removed
  notify_removed-Frame p s e = go p.disconn
    where
      go :
          (dt : DisconnectType)
          → Ends (λ _ t. Frame s t) (notify_removed (record p { disconn = dt }) s)
      go peer_disconnected_themself = notify-Frame _ _ s e
      go peer_was_disconnected = notify-Frame _ _ s e
      go peer_was_disconnected_due_to_error = notify-Frame _ _ s e

  -- The state when the socket is gone and the peer is out of the map.
  removed-Sect :
      {d c : Bool} {n l : ℕ} (k a : ℕ) (p : PeerPrivate) (m : Store I) (s : State I)
      → Sect d c n l s
      → next_scheduled s.peers ≡ some (k, p)
      → p.socket ≡ some a
      → a ≢ s.listener
      → Except a s.store m
      → Sect d c n l (record s { store = m; peers = erase k s.peers })
  removed-Sect k a p m s h e sock away x = record {
    data_lock = h.data_lock;
    callback_lock = h.callback_lock;
    counted = h.counted;
    listener = h.listener;
    core = record {
      listener_lives = x.keeps s.listener (λ t. away (sym t)) h.core.listener_lives;
      listener_below = omega (arith, h.core.listener_below, x.grows);
      owned =
          Owned-erase s.store m s.listener s.connection_counter a k p s.peers e sock x h.core.owned;
      pending = h.core.pending;
    };
  }

  destroy_peer_socket-Sect :
      {n l : ℕ} (k : ℕ) (p : PeerPrivate) (s : State I)
      → Sect true false n l s
      → next_scheduled s.peers ≡ some (k, p)
      → (sock : Option ℕ) → p.socket ≡ sock
      → HasSocket s.store s.listener sock
      → Ends
          (λ _ t. Sect true false n l (record t { peers = erase k t.peers }) × (t.peers ≡ s.peers))
          (destroy_peer_socket p s)
  unfolding destroy_peer_socket
  destroy_peer_socket-Sect k p s h e none is own = absurd own
  destroy_peer_socket-Sect k p s h e (some a) is own =
      let (m, done, gone, x) = destroy_socket-Except p a s.store is own.0 in
      record {
        holds = rw (Holds, destroy_peer_socket, done) (removed-Sect k a p m s h e is own.2 x, refl);
      }

  unlock_callback-peers :
      {n l : ℕ} {ps : PeerList} (s : State I)
      → Sect true true n l s
      → s.peers ≡ ps
      → Ends (λ _ t. Sect true false n l t × (t.peers ≡ ps)) (unlock_callback s)
  unfolding unlock_callback
  unlock_callback-peers s h e = record {
    holds = rw (h.callback_lock, unlock_callback) (Sect-callback false h, e);
  }

  remove_peer-peers :
      {n l : ℕ} (k : ℕ) (p : PeerPrivate) (s : State I)
      → Sect true false n l s
      → next_scheduled s.peers ≡ some (k, p)
      → Ends (λ _ t. Sect true false n l t × (t.peers ≡ erase k s.peers)) (remove_peer k p s)
  unfolding remove_peer
  remove_peer-peers k p s h e =
      let sound =
        next_scheduled-Sound s.store s.listener s.connection_counter k p s.peers e h.core.owned in
      Ends-bind _ (destroy_peer_socket-Sect k p s h e p.socket refl sound.own) λ _ t (ht, same).
        Ends-lock_callback _ _ ht.callback_lock (
          Ends-bind _ (notify_removed-Frame p _ refl) λ _ v f.
            unlock_callback-peers v (Sect-Frame (Sect-callback true ht) f)
              (f.peers ∙ ap (erase k) same))

  delete_found-Sect :
      {n l : ℕ} (r : Option (ℕ × PeerPrivate)) (s : State I)
      → Sect true false n l s
      → next_scheduled s.peers ≡ r
      → Ends (λ _ t. Sect true false n l t) (delete_found r s)
  unfolding delete_found
  delete_found-Sect none s h e = record { holds = h }
  delete_found-Sect (some (k, p)) s h e =
      Ends-mono (remove_peer-peers k p s h e) λ _ t (ht, left). ht

  delete_found-peers :
      {n l k : ℕ} {p : PeerPrivate} (r : Option (ℕ × PeerPrivate)) (s : State I)
      → Sect true false n l s
      → next_scheduled s.peers ≡ r
      → r ≡ some (k, p)
      → Ends (λ _ t. Sect true false n l t × (t.peers ≡ erase k s.peers)) (delete_found r s)
  unfolding delete_found
  delete_found-peers none s h e is = cc
  delete_found-peers (some (j, q)) s h e is =
      let here : j ≡ _ = ground arith in
      Ends-mono (remove_peer-peers j q s h e)
        λ _ t (ht, left). (ht, left ∙ ap (λ i. erase i s.peers) here)

  -- Where a peer is to be deleted, the first such peer leaves the map.
  pub delete_next-peers :
      {n l k : ℕ} {p : PeerPrivate} (s : State I)
      → Sect true false n l s
      → next_scheduled s.peers ≡ some (k, p)
      → Ends (λ _ t. Sect true false n l t × (t.peers ≡ erase k s.peers)) (delete_next s)
  unfolding delete_next
  delete_next-peers s h e = delete_found-peers (next_scheduled s.peers) s h refl e

  pub delete_next-Sect :
      {n l : ℕ} (s : State I)
      → Sect true false n l s
      → Ends (λ _ t. Sect true false n l t) (delete_next s)
  unfolding delete_next
  delete_next-Sect s h = delete_found-Sect (next_scheduled s.peers) s h refl
