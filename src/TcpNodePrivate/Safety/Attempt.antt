-- ===== src/TcpNodePrivate/Safety/Attempt.antt =====
-- An attempt to connect, up to what becomes of the socket.
use simpwire.Prelude.{
  pos, IsPositive, ℕ, suc, ◌+◌, ◌≤◌, ◌<◌, ◌^◌, Bool, true, false, ◌≡◌, ◌≢◌, refl, sym, ◌∙◌, List,
  [], ◌∷◌, arith, Text, ℤ, Option-cases, inl, inr,
}
use simpwire.ISocket.{ISocket}
use simpwire.Store.{Store, ok, fault, empty_front, delete_object}
use simpwire.TcpNodePrivate.State.{State, of_peer}
use simpwire.TcpNodePrivate.Monad.{
  Action, ◌>>=◌, lock_callback, unlock_callback, unlock_data, delete_socket,
}
use simpwire.TcpNodePrivate.Contracts.{
  Ends, Holds, Ends-bind, Ends-if, Ends-mono, Frame, Frame-trans,
}
use simpwire.TcpNodePrivate.Locks.{Ends-lock_callback, Ends-lock_data, Ends-unlock_data}
use simpwire.TcpNodePrivate.Ownership.{Except, Owned-Except}
use simpwire.TcpNodePrivate.Sections.{Sect, Sect-data, Sect-callback, Sect-Frame, Sect-later}
use simpwire.TcpNodePrivate.Safety.Loose.{
  Same, Same-trans, Same-Frame, Loose, Loose-Frame, next_id-Sect, make_peer-Frame, insert-Sect,
}
use simpwire.TcpNodePrivate.ConnectThread.{
  connect_rounds, front, connect_failed, connected, connect_attempt,
}
use simpwire.TcpNodePrivate.Safety.ConnectLoop.{
  connect_rounds_positive, notify_locked-Frame, report_connect_error-Frame, create_socket-Loose,
  connect_loop-Frame,
}
use simpwire.TcpNodePrivate.Safety.Attempt.Failure.{
  unlock_callback-Same, lock_callback-Same, unlock_data-Same, connect_failed-Sect,
}
pub mod Failure
use simpwire.TcpNodePrivate.Safety.Positions.{notify_listen-Frame}

module _ {I : ISocket} where
  Loose-data :
      {a k : ℕ} {s : State I} (d : Bool) → Loose a k s → Loose a k (record s { data_access = d })
  Loose-data d h = record {
    lives = h.lives;
    below = h.below;
    not_listener = h.not_listener;
    unshared = h.unshared;
  }

  connected-Sect :
      {n l a : ℕ} (s : State I)
      → Sect false false n l s
      → Loose a (suc s.connection_counter) s
      → s.connection_counter + 1 < 2 ^ 64
      → Ends (λ _ t. Sect false false (suc n) l t × Same s t) (connected a s)
  unfolding connected
  connected-Sect {a} s h free fits = Ends-lock_data _ s h.data_lock (
      Ends-bind _ (next_id-Sect _ (Sect-data true h) (Loose-data true free) fits)
        λ k t (ht, freet, count, pos_k, first).
          Ends-bind _ (make_peer-Frame k a t freet.lives) λ p u (g, id, sock, valid, kept).
            Ends-bind _
              (unlock_data-Same _ (
                insert-Sect k p u (Sect-Frame ht g) (Loose-Frame freet g) (g.counter ∙ count) pos_k
                  id sock valid))
              λ _ v (hv, second). Ends-bind _ (lock_callback-Same v hv) λ _ w (hw, third).
                Ends-bind _ (notify_locked-Frame _ (of_peer p) w) λ _ x f.
                  Ends-bind _ (notify_listen-Frame x) λ _ x' f'.
                    Ends-mono (unlock_callback-Same x' (Sect-Frame (Sect-Frame hw f) f'))
                      λ _ y (hy, fourth). (
                        hy,
                        record {
                          queue =
                              fourth.queue ∙ f'.queue ∙ f.queue ∙ third.queue ∙ second.queue
                              ∙ g.queue ∙ first.queue;
                          thread =
                              fourth.thread ∙ f'.thread ∙ f.thread ∙ third.thread ∙ second.thread
                              ∙ g.thread ∙ first.thread;
                        },
                      ))

  Ends-front :
      {B : Type 0} {Q : B → State I → Type 0} (k : Text × ℕ → Action I B) (s : State I)
      → s.potential_peers ≢ []
      → ((e : Text × ℕ) → Ends Q (k e s))
      → Ends Q ((front >>= k) s)
  unfolding front
  Ends-front {Q} k s more h = record { holds = go s.potential_peers more }
    where
      go :
          (q : List (Text × ℕ))
          → q ≢ []
          → Holds Q (((λ s. elim q [ [] ↦ fault empty_front | e ∷ q ↦ ok (e, s) ]) >>= k) s)
      go [] more = absurd (more refl)
      go (e ∷ q) more = (h e).holds

  Loose-at : {a j k : ℕ} {s : State I} → j ≡ k → Loose a (suc k) s → Loose a (suc j) s
  Loose-at e h = rw e h

module _ {I : ISocket} (sleep_for : ℤ → I.World → ℤ × I.World)
    (ticks : (ms : ℤ) (w : I.World) → IsPositive (sleep_for ms w).0) where
  pub connect_attempt-Same :
      {n l : ℕ} (s : State I)
      → Sect false false n l s
      → s.connection_counter + 1 < 2 ^ 64
      → s.potential_peers ≢ []
      → Ends (λ _ t. Sect false false (suc n) l t × Same s t) (connect_attempt sleep_for s)
  unfolding connect_attempt
  connect_attempt-Same s h fits more = Ends-bind _ (create_socket-Loose s h) λ a t (f, free).
      let ht = Sect-Frame h f in
      Ends-lock_data _ t ht.data_lock (
        Ends-front _ _ (λ e. more (sym f.queue ∙ e))
          λ e. Ends-unlock_data _ _ refl (
            let v : State I = record t { data_access = false } in
            let fv : Frame t v = ground (arith, ht.data_lock) in
            let hv = Sect-Frame ht fv in
            let freev = Loose-Frame free fv in
            Ends-bind _
              (connect_loop-Frame sleep_for ticks (connect_rounds v.connect_timeout) a e.0 e.1 0
                (pos 0) v refl (omega arith) (connect_rounds_positive v.connect_timeout)
                freev.lives)
              λ success u g.
                let hu = Sect-Frame hv g in
                let fu = Frame-trans f (Frame-trans fv g) in
                let freeu = Loose-Frame freev g in
                let count : u.connection_counter ≡ t.connection_counter = g.counter ∙ fv.counter in
                Ends-if success (connected a) (connect_failed e.0 e.1 a) u
                  (λ _.
                    Ends-mono
                      (connected-Sect u hu (Loose-at count freeu) (omega (arith, fu.counter)))
                      λ _ w (hw, same). (hw, Same-trans (Same-Frame fu) same))
                  λ _.
                    Ends-mono (connect_failed-Sect e.0 e.1 u hu freeu)
                      λ _ w (hw, same). (Sect-later hw, Same-trans (Same-Frame fu) same)))
