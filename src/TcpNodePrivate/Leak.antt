-- ===== src/TcpNodePrivate/Leak.antt =====
-- What the destructor leaves behind.
use simpwire.Prelude.{
  ℕ, true, false, ◌≡◌, ◌≢◌, refl, ◌∙◌, ap, Option, none, some, [], ◌∷◌, arith, All, Option-cases,
  inl, inr,
}
use simpwire.ISocket.{ISocket}
use simpwire.Store.{Store, update, delete_object}
use simpwire.TcpNodePrivate.State.{State, PeerList}
use simpwire.TcpNodePrivate.Monad.{unlock_data, delete_socket}
use simpwire.TcpNodePrivate.Contracts.{Ends, Holds, Ends-bind, call_socket-Frame}
use simpwire.TcpNodePrivate.Locks.{Ends-lock_data}
use simpwire.TcpNodePrivate.Invariant.{Inv, Owned, HasSocket}
use simpwire.TcpNodePrivate.Ownership.{Except, Tracks-schedule_all}
use simpwire.TcpNodePrivate.Sections.{Sect, Sect-data, Sect-Inv, Sect-Tracks, Sect-Frame}
use simpwire.TcpNodePrivate.Requests.{schedule_all, disconnect_all}
use simpwire.TcpNodePrivate.Destructor.{after_joins}

module _ {I : ISocket} where
  abbrev pub Exists : Store I → Option ℕ → Type 0
  Exists m none = ⊥
  Exists m (some a) = m.cell a ≢ none

  Exists-Except :
      (m n : Store I) (l : ℕ) (sock : Option ℕ) → Except l m n → HasSocket m l sock → Exists n sock
  Exists-Except m n l none x h = h
  Exists-Except m n l (some a) x h = x.keeps a h.2 h.0

  All-Exists :
      (m n : Store I) (l c : ℕ) (ps : PeerList)
      → Except l m n
      → Owned m l c ps
      → All (λ e. Exists n e.1.socket) ps
  All-Exists m n l c [] x o = tt
  All-Exists m n l c ((k, p) ∷ ps) x o =
      (Exists-Except m n l p.socket x o.0.own, All-Exists m n l c ps x o.2)

  pub disconnect_all-peers :
      (s : State I)
      → Inv s
      → Ends
          (λ _ t.
            Sect false false s.connection_counter s.listener t × (t.peers ≡ schedule_all s.peers))
          (disconnect_all s)
  unfolding disconnect_all unlock_data
  disconnect_all-peers s h = Ends-lock_data _ s h.data_free (record {
    holds = (
      Sect-Tracks (schedule_all s.peers) (Sect-data false (Sect-data true (Sect-Inv h)))
          (Tracks-schedule_all s.peers),
      refl,
    );
  })

  -- What follows the destructor's last join, in a node with the invariant, ends without a fault:
  -- the listener is deleted, every peer stays in the map, marked for deletion, and its socket object
  -- still exists.
  pub after_joins-peers :
      (s : State I)
      → Inv s
      → Ends
          (λ _ t.
            (t.store.cell s.listener ≡ none)
            × (t.peers ≡ schedule_all s.peers)
            × All (λ e. Exists t.store e.1.socket) t.peers)
          (after_joins s)
  unfolding after_joins delete_socket delete_object
  after_joins-peers s h = Ends-bind _ (disconnect_all-peers s h) λ _ t (ht, marked).
      Ends-bind _ (call_socket-Frame I.close t.listener t ht.core.listener_lives) λ _ u f.
        let hu = Sect-Frame ht f in
        elim (Option-cases (u.store.cell t.listener)) [
          | inl e ↦ absurd (hu.core.listener_lives (ap u.store.cell f.listener ∙ e))
          | inr (o, e) ↦ record {
            holds =
                rw (Holds, delete_socket, delete_object, e)
                  (
                    ground (arith, ht.listener),
                    f.peers ∙ marked,
                    All-Exists u.store
                        (record u.store {
                          cell = update u.store.cell t.listener none;
                          world = I.destroy o u.store.world;
                        })
                        u.listener u.connection_counter u.peers
                        (record {
                          keeps = λ b away live. ground (arith, f.listener);
                          grows = omega arith;
                        })
                        hu.core.owned,
                  );
          }
        ]
