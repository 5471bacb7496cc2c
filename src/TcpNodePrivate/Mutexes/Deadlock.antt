-- ===== src/TcpNodePrivate/Mutexes/Deadlock.antt =====
-- src/TcpNodePrivate.cpp, the end of listening in _listenThreadJob against the refusal in sendData.
use simpwire.Prelude.{true, false, ◌≡◌, refl, none, some, List, [], ◌∷◌, ◌++◌, All}
use simpwire.TcpNodePrivate.Mutexes.{
  data_access, callback_access, Op, lock, unlock, Thread, at, Free, lock_data, lock_callback,
  unlock_data, unlock_callback, Step, here, there, Run, stay, step,
}
use simpwire.TcpNodePrivate.Mutexes.Programs.{
  Function, locks, notification_locked, notification_stopped, stop_listener, send_refused,
}
use simpwire.TcpNodePrivate.Mutexes.Progress.{Ordered, Goes}

-- A thread that holds neither mutex and keeps to their order.
abbrev Idle : Thread → Type 0
Idle (at d c p) = (d ≡ false) × (c ≡ false) × Ordered d c p

-- The listen thread wants the mutex of the data back, which the user's thread holds; the user's
-- thread wants that of the callbacks, which the listen thread holds.
abbrev blocked : List Op → List Op → List Thread → List Thread
blocked p q others =
    at false true (lock data_access ∷ p) ∷ at true false (lock callback_access ∷ q) ∷ others

Idle-waits :
    (p q : List Op) (others : List Thread)
    → (ts us : List Thread) → All Idle ts
    → Step (blocked p q others) ts us
    → ⊥
Idle-waits p q others [] us h s = elim s [ ]
Idle-waits p q others (at d c r ∷ ts) us h (here (lock_data free)) = cc
Idle-waits p q others (at d c r ∷ ts) us h (here (lock_callback free)) = cc
Idle-waits p q others (at d c r ∷ ts) us h (here unlock_data) = cc
Idle-waits p q others (at d c r ∷ ts) us h (here unlock_callback) = cc
Idle-waits p q others (t ∷ ts) us h (there s) = Idle-waits p q others ts _ h.1 s

blocked-waits :
    (p q : List Op) (others : List Thread)
    → All Idle others
    → ¬ Goes (blocked p q others) (blocked p q others)
blocked-waits p q others h (us, here (lock_data free)) = cc
blocked-waits p q others h (us, there (here (lock_callback free))) = cc
blocked-waits p q others h (us, there (there s)) = Idle-waits p q others others _ h s

Idle-Free : (ts : List Thread) → All Idle ts → Free data_access ts × Free callback_access ts
Idle-Free [] h = (tt, tt)
Idle-Free (at d c p ∷ ts) h =
    let (data_free, callback_free) = Idle-Free ts h.1 in
    ((h.0.0, data_free), (h.0.1, callback_free))

-- What is left of sendData when it has taken the mutex of the data.
abbrev refusal : Function → List Op → List Op
refusal none q = unlock callback_access ∷ unlock data_access ∷ q
refusal (some g) q = ((g ++ unlock callback_access ∷ []) ++ unlock data_access ∷ []) ++ q

refused :
    (g : Function) (q : List Op)
    → locks (send_refused g) ++ q ≡ lock data_access ∷ lock callback_access ∷ refusal g q
unfolding locks notification_locked
refused none q = refl
refused (some g) q = refl

-- The four steps: the listen thread takes both mutexes and gives that of the data up, and the
-- user's thread takes it.
to_blocked :
    (p q : List Op) (others : List Thread)
    → Free data_access others
    → Free callback_access others
    → Run 4
        (at false false
            (lock data_access ∷ lock callback_access ∷ unlock data_access ∷ lock data_access ∷ p)
          ∷ at false false (lock data_access ∷ lock callback_access ∷ q)
          ∷ others)
        (blocked p q others)
to_blocked p q others d c = step (here (lock_data (refl, (refl, d)))) (
    step (here (lock_callback (refl, (refl, c))))
      (step (here unlock_data) (step (there (here (lock_data (refl, (refl, d))))) stay)))

-- Let the listen thread be about to stop listening, with a function to call that leaves the mutexes
-- alone, and another thread be about to refuse a `sendData`, whatever both do afterwards; let any
-- other threads hold neither mutex and keep to the order. Four steps lead to a state in which no
-- thread can go on.
pub stop-refusal-stuck :
    (p q : List Op) (g : Function) (others : List Thread)
    → All Idle others
    → (us : List Thread) × Run 4
        (at false false (locks (stop_listener (some [])) ++ p)
          ∷ at false false (locks (send_refused g) ++ q)
          ∷ others)
        us
      × ¬ Goes us us
unfolding locks notification_stopped
stop-refusal-stuck p q g others h =
    let (d, c) = Idle-Free others h in
    (
      blocked (unlock callback_access ∷ unlock data_access ∷ p) (refusal g q) others,
      rw (refused g q) (to_blocked _ _ others d c),
      blocked-waits _ _ others h,
    )
