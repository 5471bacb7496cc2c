-- ===== src/TcpNodePrivate/Drain.antt =====
-- How a node gets rid of its peers.
use simpwire.Prelude.{
  ℕ, zero, suc, true, false, ◌≡◌, refl, ap, subst, ◌∙◌, some, [], ◌∷◌, arith, All, length, ==-self,
}
use simpwire.ISocket.{ISocket}
use simpwire.PeerPrivate.{PeerPrivate, schedule_delete}
use simpwire.TcpNodePrivate.State.{State, PeerList}
use simpwire.TcpNodePrivate.Monad.{Action, pure, ◌>>◌, lock_data, unlock_data}
use simpwire.TcpNodePrivate.Map.{erase}
use simpwire.TcpNodePrivate.Contracts.{Holds, Ends, Ends-bind}
use simpwire.TcpNodePrivate.Locks.{Ends-lock_data}
use simpwire.TcpNodePrivate.Invariant.{Inv}
use simpwire.TcpNodePrivate.Sections.{Sect, Sect-data}
use simpwire.TcpNodePrivate.Requests.{schedule_all, disconnect_all}
use simpwire.TcpNodePrivate.Remove.{next_scheduled, delete_next}
use simpwire.TcpNodePrivate.Safety.Remove.{delete_next-peers}
use simpwire.TcpNodePrivate.Leak.{disconnect_all-peers}

Scheduled : PeerList → Type 0
Scheduled ps = All (λ e. e.1.to_be_deleted ≡ true) ps

schedule_all-Scheduled : (ps : PeerList) → Scheduled (schedule_all ps)
unfolding Scheduled schedule_delete
schedule_all-Scheduled [] = tt
schedule_all-Scheduled ((k, p) ∷ ps) = (refl, schedule_all-Scheduled ps)

length-schedule_all : (ps : PeerList) → length (schedule_all ps) ≡ length ps
length-schedule_all [] = refl
length-schedule_all (e ∷ ps) = ap suc (length-schedule_all ps)

erase-head : (k : ℕ) (p : PeerPrivate) (ps : PeerList) → erase k ((k, p) ∷ ps) ≡ ps
unfolding erase
erase-head k p ps = rw (==-self, erase) refl

next_scheduled-first :
    (k : ℕ) (p : PeerPrivate) (ps : PeerList)
    → p.to_be_deleted ≡ true
    → next_scheduled ((k, p) ∷ ps) ≡ some (k, p)
unfolding next_scheduled
next_scheduled-first k p ps e = ground arith

module _ {I : ISocket} where
  -- The deletions of so many turns of the listen thread.
  unfoldable pub deletions : ℕ → Action I (Unit {0})
  deletions zero = pure tt
  deletions (suc n) = do delete_next; deletions n

  drained :
      {n l : ℕ} (ps : PeerList) (s : State I)
      → s.peers ≡ ps
      → Scheduled ps
      → Sect true false n l s
      → Ends (λ _ t. Sect true false n l t × (t.peers ≡ [])) (deletions (length ps) s)
  unfolding deletions Scheduled
  drained [] s e d h = record { holds = (h, e) }
  drained ((k, p) ∷ ps) s e d h =
      Ends-bind _ (delete_next-peers s h (ap next_scheduled e ∙ next_scheduled-first k p ps d.0))
        λ _ t (ht, left). drained ps t (left ∙ ap (erase k) e ∙ erase-head k p ps) d.1 ht

  unfoldable pub disconnect_then_delete : ℕ → Action I (Unit {0})
  disconnect_then_delete n = do disconnect_all; lock_data; deletions n; unlock_data

  unlocked :
      {n l : ℕ} (s : State I)
      → Sect true false n l s
      → s.peers ≡ []
      → Ends (λ _ t. t.peers ≡ []) (unlock_data s)
  unfolding unlock_data
  unlocked s h e = record { holds = rw (h.data_lock, unlock_data, Holds) e }

  -- A node with the invariant whose user calls `disconnectAll`: after that, as many deletions of the
  -- listen thread as there were peers end without a fault and leave no peer in the map.
  pub disconnect_then_delete-peers :
      (s : State I) → Inv s → Ends (λ _ t. t.peers ≡ []) (disconnect_then_delete (length s.peers) s)
  unfolding disconnect_then_delete
  disconnect_then_delete-peers s h = Ends-bind _ (disconnect_all-peers s h) λ _ t (ht, marked).
      Ends-lock_data _ t ht.data_lock (
        Ends-bind {P = λ _ u. Sect true false s.connection_counter s.listener u × (u.peers ≡ [])} _
          (subst
            (λ m.
              Ends (λ _ u. Sect true false s.connection_counter s.listener u × (u.peers ≡ []))
                (deletions m (record t { data_access = true })))
            (length-schedule_all s.peers)
            (drained (schedule_all s.peers) _ marked (schedule_all-Scheduled s.peers)
              (Sect-data true ht)))
          λ _ u (hu, none_left). unlocked u hu none_left)
