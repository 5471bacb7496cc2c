-- ===== src/TcpNodePrivate/Safety/ConnectThread.antt =====
-- A turn of the connect thread.
use simpwire.Prelude.{
  IsPositive, ℕ, zero, suc, ◌+◌, ◌<◌, ◌^◌, true, false, ◌≡◌, ◌≢◌, refl, List, [], ◌∷◌, Text, ℤ,
}
use simpwire.ISocket.{ISocket}
use simpwire.TcpNodePrivate.State.{State, ConnectPc}
use simpwire.TcpNodePrivate.Monad.{lock_data, unlock_data, ◌>>◌}
use simpwire.TcpNodePrivate.Contracts.{Ends, Ends-mono}
use simpwire.TcpNodePrivate.Locks.{Ends-lock_data, Ends-unlock_data}
use simpwire.TcpNodePrivate.Sections.{Sect, Sect-data, Sect-later, unlock_data-Sect}
use simpwire.TcpNodePrivate.Safety.Positions.{
  top-Pending, waiting-Pending, trying-Pending, Pending-more, Sect-pc,
}
use simpwire.TcpNodePrivate.ConnectThread.{
  pop_front, connect_attempt, connect_turn_at, connect_turn,
}
use simpwire.TcpNodePrivate.Safety.Attempt.{connect_attempt-Same}

module _ {I : ISocket} (sleep_for : ℤ → I.World → ℤ × I.World)
    (ticks : (ms : ℤ) (w : I.World) → IsPositive (sleep_for ms w).0) where
  connect_attempt-Sect :
      {n l : ℕ} (s : State I)
      → Sect false false n l s
      → s.connection_counter + 1 < 2 ^ 64
      → s.potential_peers ≢ []
      → Ends (λ _ t. Sect false false (suc n) l t) (connect_attempt sleep_for s)
  connect_attempt-Sect s h fits more =
      Ends-mono (connect_attempt-Same sleep_for ticks s h fits more) λ _ t (ht, same). ht

  popped-Sect :
      {n l : ℕ} (s : State I)
      → Sect false false n l (record s { connect_thread = ConnectPc.at_top })
      → s.potential_peers ≢ []
      → Ends
          (λ _ t. Sect false false (suc n) l t)
          ((lock_data >> (pop_front >> unlock_data))
            (record s { connect_thread = ConnectPc.at_top }))
  unfolding pop_front
  popped-Sect {n} {l} s h more = go s.potential_peers h more
    where
      go :
          (q : List (Text × ℕ))
          → Sect false false n l
              (record s { connect_thread = ConnectPc.at_top; potential_peers = q })
          → q ≢ []
          → Ends
              (λ _ t. Sect false false (suc n) l t)
              ((lock_data >> (pop_front >> unlock_data))
                (record s { connect_thread = ConnectPc.at_top; potential_peers = q }))
      go [] h more = absurd (more refl)
      go (e ∷ q) h more =
          Ends-lock_data _ _ h.data_lock
            (unlock_data-Sect (Sect-later (Sect-pc ConnectPc.at_top q (Sect-data true h) tt)))

  turn_at-Sect :
      {n l : ℕ} (pc : ConnectPc) (s : State I)
      → s.connect_thread ≡ pc
      → Sect false false n l s
      → s.connection_counter + 1 < 2 ^ 64
      → Ends (λ _ t. Sect false false (suc n) l t) (connect_turn_at sleep_for pc s)
  unfolding connect_turn_at
  turn_at-Sect ConnectPc.not_started s e h fits = record { holds = Sect-later h }
  turn_at-Sect ConnectPc.asleep s e h fits = record { holds = Sect-later h }
  turn_at-Sect ConnectPc.finished s e h fits = record { holds = Sect-later h }
  turn_at-Sect ConnectPc.at_top s e h fits = Ends-lock_data _ s h.data_lock (
      Ends-unlock_data _ _ refl (record {
        holds = Sect-later (
            Sect-pc _ s.potential_peers (Sect-data false (Sect-data true h))
              (top-Pending s.connect_thread_running s.potential_peers));
      }))
  turn_at-Sect ConnectPc.waiting s e h fits = record {
    holds = Sect-later (Sect-pc _ s.potential_peers h (waiting-Pending _ s.potential_peers));
  }
  turn_at-Sect (ConnectPc.trying zero) s e h fits =
      popped-Sect s (Sect-pc ConnectPc.at_top s.potential_peers h tt)
        (Pending-more zero s.connect_thread s.potential_peers e h.core.pending)
  turn_at-Sect (ConnectPc.trying (suc i)) s e h fits =
      let more = Pending-more (suc i) s.connect_thread s.potential_peers e h.core.pending in
      connect_attempt-Sect (record s { connect_thread = ConnectPc.trying i })
        (Sect-pc (ConnectPc.trying i) s.potential_peers h (trying-Pending i s.potential_peers more))
        fits more

  pub connect_turn-Sect :
      {n l : ℕ} (s : State I)
      → Sect false false n l s
      → s.connection_counter + 1 < 2 ^ 64
      → Ends (λ _ t. Sect false false (suc n) l t) (connect_turn sleep_for s)
  unfolding connect_turn
  connect_turn-Sect s h fits = turn_at-Sect s.connect_thread s refl h fits
