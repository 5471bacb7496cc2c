-- ===== src/TcpNodePrivate/Retry.antt =====
-- How the connect thread goes through its queue.
use simpwire.Prelude.{
  IsPositive, ap, Bool, if◌then◌else◌, ◌==◌, length, ℕ, zero, suc, ◌+◌, ◌<◌, ◌^◌, true, false, ◌≡◌,
  refl, sym, subst, ◌∙◌, [], ◌∷◌, List, Text, arith, ℤ,
}
use simpwire.ISocket.{ISocket}
use simpwire.TcpNodePrivate.State.{State, ConnectPc}
use simpwire.TcpNodePrivate.Monad.{unlock_data, Action, pure, ◌>>◌}
use simpwire.TcpNodePrivate.Contracts.{Holds, Ends, Ends-bind, Ends-mono}
use simpwire.TcpNodePrivate.Locks.{Ends-lock_data, Ends-unlock_data}
use simpwire.TcpNodePrivate.Invariant.{Inv}
use simpwire.TcpNodePrivate.Sections.{Sect, Sect-Inv, Sect-data}
use simpwire.TcpNodePrivate.Safety.Positions.{Sect-pc, trying-Pending, top-Pending}
use simpwire.TcpNodePrivate.Safety.Attempt.{connect_attempt-Same}
use simpwire.TcpNodePrivate.ConnectThread.{pop_front, connect_turn, connect_turn_at}

top_trying :
    {x : Text × ℕ} {q : List (Text × ℕ)} (running : Bool) (r : List (Text × ℕ))
    → running ≡ true
    → r ≡ x ∷ q
    → (if running
        then if length r == 0 then ConnectPc.waiting else ConnectPc.trying (length r)
        else ConnectPc.finished)
      ≡ ConnectPc.trying (length (x ∷ q))
top_trying running [] runs e = cc
top_trying running (y ∷ r) runs e = ground (arith, runs, ap length e)

module _ {I : ISocket} (sleep_for : ℤ → I.World → ℤ × I.World)
    (ticks : (ms : ℤ) (w : I.World) → IsPositive (sleep_for ms w).0) where
  unfoldable pub connect_turns : ℕ → Action I (Unit {0})
  connect_turns zero = pure tt
  connect_turns (suc n) = do connect_turn sleep_for; connect_turns n

  tried :
      {n l : ℕ} (i : ℕ) (x : Text × ℕ) (q : List (Text × ℕ)) (s : State I)
      → s.potential_peers ≡ x ∷ q
      → Sect false false n l s
      → s.connection_counter + 1 < 2 ^ 64
      → Ends
          (λ _ t.
            Sect false false (suc n) l t
            × (t.potential_peers ≡ x ∷ q)
            × (t.connect_thread ≡ ConnectPc.trying i))
          (connect_turn_at sleep_for (ConnectPc.trying (suc i)) s)
  unfolding connect_turn_at
  tried i x q s pq h fits =
      Ends-mono
        (connect_attempt-Same sleep_for ticks (record s { connect_thread = ConnectPc.trying i })
          (Sect-pc (ConnectPc.trying i) s.potential_peers h (trying-Pending i _ λ e. cc)) fits
          λ e. cc)
        λ _ t (ht, same). (ht, same.queue ∙ pq, same.thread)

  popped :
      (x : Text × ℕ) (q : List (Text × ℕ)) (s : State I)
      → s.potential_peers ≡ x ∷ q
      → s.data_access ≡ false
      → Ends
          (λ _ t. (t.potential_peers ≡ q) × (t.connect_thread ≡ ConnectPc.at_top))
          (connect_turn_at sleep_for (ConnectPc.trying zero) s)
  unfolding connect_turn_at pop_front unlock_data
  popped x q s pq h =
      Ends-lock_data _ (record s { connect_thread = ConnectPc.at_top }) h
        (record { holds = go s.potential_peers pq })
    where
      go :
          (r : List (Text × ℕ))
          → r ≡ x ∷ q
          → Holds
              (λ _ t. (t.potential_peers ≡ q) × (t.connect_thread ≡ ConnectPc.at_top))
              ((pop_front >> unlock_data) (record s {
                connect_thread = ConnectPc.at_top;
                data_access = true;
                potential_peers = r;
              }))
      go [] e = cc
      go (y ∷ r) e = (ground arith, refl)

  turns-trying :
      {l : ℕ} (n m : ℕ) (x : Text × ℕ) (q : List (Text × ℕ)) (s : State I)
      → s.connect_thread ≡ ConnectPc.trying n
      → s.potential_peers ≡ x ∷ q
      → Sect false false m l s
      → m + n < 2 ^ 64
      → Ends
          (λ _ t. (t.potential_peers ≡ q) × (t.connect_thread ≡ ConnectPc.at_top))
          (connect_turns (suc n) s)
  unfolding connect_turns connect_turn
  turns-trying zero m x q s e pq h fits =
      Ends-bind {r = connect_turn_at sleep_for s.connect_thread s} _
        (subst
          (λ pc.
            Ends (λ _ t. (t.potential_peers ≡ q) × (t.connect_thread ≡ ConnectPc.at_top))
              (connect_turn_at sleep_for pc s))
          (sym e) (popped x q s pq h.data_lock))
        λ _ t ht. record { holds = ht }
  turns-trying {l} (suc n) m x q s e pq h fits =
      Ends-bind
        {P = λ _ t.
          Sect false false (suc m) l t
          × (t.potential_peers ≡ x ∷ q)
          × (t.connect_thread ≡ ConnectPc.trying n)}
        {r = connect_turn_at sleep_for s.connect_thread s} _
        (subst
          (λ pc.
            Ends
              (λ _ t.
                Sect false false (suc m) l t
                × (t.potential_peers ≡ x ∷ q)
                × (t.connect_thread ≡ ConnectPc.trying n))
              (connect_turn_at sleep_for pc s))
          (sym e) (tried n x q s pq h (omega (arith, h.counted))))
        λ _ t (ht, left, at_n). turns-trying n (suc m) x q t at_n left ht (omega arith)

  -- The turn that looks at the length of the queue.
  topped :
      {n l : ℕ} (x : Text × ℕ) (q : List (Text × ℕ)) (s : State I)
      → s.connect_thread_running ≡ true
      → s.potential_peers ≡ x ∷ q
      → Sect false false n l s
      → Ends
          (λ _ t.
            Sect false false n l t
            × (t.potential_peers ≡ x ∷ q)
            × (t.connect_thread ≡ ConnectPc.trying (length (x ∷ q))))
          (connect_turn_at sleep_for ConnectPc.at_top s)
  unfolding connect_turn_at
  topped x q s runs pq h = Ends-lock_data _ s h.data_lock (
      Ends-unlock_data _ _ refl (record {
        holds = (
          Sect-pc _ s.potential_peers (Sect-data false (Sect-data true h))
              (top-Pending s.connect_thread_running s.potential_peers),
          pq,
          top_trying s.connect_thread_running s.potential_peers runs pq,
        );
      }))

  pub connect_turns-potential_peers :
      (x : Text × ℕ) (q : List (Text × ℕ)) (s : State I)
      → Inv s
      → s.connect_thread ≡ ConnectPc.at_top
      → s.connect_thread_running ≡ true
      → s.potential_peers ≡ x ∷ q
      → s.connection_counter + length (x ∷ q) < 2 ^ 64
      → Ends
          (λ _ t. (t.potential_peers ≡ q) × (t.connect_thread ≡ ConnectPc.at_top))
          (connect_turns (suc (suc (length (x ∷ q)))) s)
  unfolding connect_turns connect_turn
  connect_turns-potential_peers x q s h e runs pq fits =
      Ends-bind
        {P = λ _ t.
          Sect false false s.connection_counter s.listener t
          × (t.potential_peers ≡ x ∷ q)
          × (t.connect_thread ≡ ConnectPc.trying (length (x ∷ q)))}
        {r = connect_turn_at sleep_for s.connect_thread s} _
        (subst
          (λ pc.
            Ends
              (λ _ t.
                Sect false false s.connection_counter s.listener t
                × (t.potential_peers ≡ x ∷ q)
                × (t.connect_thread ≡ ConnectPc.trying (length (x ∷ q))))
              (connect_turn_at sleep_for pc s))
          (sym e) (topped x q s runs pq (Sect-Inv h)))
        λ _ t (ht, left, at_n).
          turns-trying (length (x ∷ q)) s.connection_counter x q t at_n left ht fits
