-- ===== src/TcpNodePrivate/Mutexes/Progress.antt =====
-- Threads that take the two mutexes in one order never block one another.
use simpwire.Prelude.{
  ℕ, suc, ◌+◌, Bool, true, false, ◌≡◌, refl, ◌⊎◌, inl, inr, List, [], ◌∷◌, All, arith,
}
use simpwire.TcpNodePrivate.Mutexes.{
  data_access, callback_access, Op, lock, unlock, Thread, at, Free, Move, lock_data, lock_callback,
  unlock_data, unlock_callback, Step, here, there, Run, stay, step, Finished, remaining,
}

-- A program that starts with the mutexes `d` and `c` held takes the mutex of the data only while it
-- holds none, that of the callbacks only while it does not hold it, gives up only what it holds,
-- and ends with the mutexes `d'` and `c'` held.
abbrev pub Follows : (d' c' d c : Bool) → List Op → Type 0
Follows d' c' d c [] = (d ≡ d') × (c ≡ c')
Follows d' c' d c (lock data_access ∷ p) = (d ≡ false) × (c ≡ false) × Follows d' c' true c p
Follows d' c' d c (lock callback_access ∷ p) = (c ≡ false) × Follows d' c' d true p
Follows d' c' d c (unlock data_access ∷ p) = (d ≡ true) × Follows d' c' false c p
Follows d' c' d c (unlock callback_access ∷ p) = (c ≡ true) × Follows d' c' d false p

abbrev pub Ordered : (d c : Bool) → List Op → Type 0
Ordered d c p = Follows false false d c p

abbrev pub ThreadOrdered : Thread → Type 0
ThreadOrdered (at d c p) = Ordered d c p

Move-Ordered : {all : List Thread} {t u : Thread} → Move all t u → ThreadOrdered t → ThreadOrdered u
Move-Ordered (lock_data free) h = h.2
Move-Ordered (lock_callback free) h = h.1
Move-Ordered unlock_data h = h.1
Move-Ordered unlock_callback h = h.1

Step-Ordered :
    {all ts us : List Thread} → Step all ts us → All ThreadOrdered ts → All ThreadOrdered us
Step-Ordered (here m) h = (Move-Ordered m h.0, h.1)
Step-Ordered (there s) h = (h.0, Step-Ordered s h.1)

-- A move uses up one operation.
Step-remaining : {all ts us : List Thread} → Step all ts us → remaining ts ≡ suc (remaining us)
Step-remaining (here (lock_data free)) = omega arith
Step-remaining (here (lock_callback free)) = omega arith
Step-remaining (here unlock_data) = omega arith
Step-remaining (here unlock_callback) = omega arith
Step-remaining (there {t = at d c p} s) = omega (arith, Step-remaining s)

pub Run-Ordered :
    {n : ℕ} {ts us : List Thread} → Run n ts us → All ThreadOrdered ts → All ThreadOrdered us
Run-Ordered stay h = h
Run-Ordered (step s r) h = Run-Ordered r (Step-Ordered s h)

pub Run-remaining : {n : ℕ} {ts us : List Thread} → Run n ts us → remaining ts ≡ n + remaining us
Run-remaining stay = omega arith
Run-remaining (step s r) = omega (arith, Step-remaining s, Run-remaining r)

-- Some thread of the list can go on.
abbrev pub Goes : List Thread → List Thread → Type 0
Goes all ts = (us : List Thread) × Step all ts us

Goes-there : {all ts : List Thread} (t : Thread) → Goes all ts → Goes all (t ∷ ts)
Goes-there t (us, s) = (t ∷ us, there s)

-- A thread that holds the mutex of the callbacks gives something up next.
moves_callback :
    (all : List Thread) (d : Bool) (p : List Op)
    → Ordered d true p
    → (u : Thread) × Move all (at d true p) u
moves_callback all d [] h = cc
moves_callback all d (lock data_access ∷ p) h = cc
moves_callback all d (lock callback_access ∷ p) h = cc
moves_callback all d (unlock data_access ∷ p) h = (at false true p, unlock_data)
moves_callback all d (unlock callback_access ∷ p) h = (at d false p, unlock_callback)

any_callback : (all ts : List Thread) → All ThreadOrdered ts → Free callback_access ts ⊎ Goes all ts
any_callback all [] h = inl tt
any_callback all (at d true p ∷ ts) h =
    let (u, m) = moves_callback all d p h.0 in inr (u ∷ ts, here m)
any_callback all (at d false p ∷ ts) h = elim (any_callback all ts h.1) [
  | inl free ↦ inl (refl, free)
  | inr goes ↦ inr (Goes-there _ goes)
]

-- One that holds the mutex of the data alone goes on if that of the callbacks is free.
moves_data :
    (all : List Thread) (p : List Op)
    → Free callback_access all
    → Ordered true false p
    → (u : Thread) × Move all (at true false p) u
moves_data all [] free h = cc
moves_data all (lock data_access ∷ p) free h = cc
moves_data all (lock callback_access ∷ p) free h = (at true true p, lock_callback free)
moves_data all (unlock data_access ∷ p) free h = (at false false p, unlock_data)
moves_data all (unlock callback_access ∷ p) free h = cc

any_data :
    (all ts : List Thread)
    → Free callback_access all
    → Free callback_access ts
    → All ThreadOrdered ts
    → Free data_access ts ⊎ Goes all ts
any_data all [] free none_here h = inl tt
any_data all (at d true p ∷ ts) free none_here h = cc
any_data all (at true false p ∷ ts) free none_here h =
    let (u, m) = moves_data all p free h.0 in inr (u ∷ ts, here m)
any_data all (at false false p ∷ ts) free none_here h =
    elim (any_data all ts free none_here.1 h.1) [
      | inl left ↦ inl (refl, left)
      | inr goes ↦ inr (Goes-there _ goes)
    ]

-- If both are free, every thread that is not finished can take what it wants.
any_thread :
    (all ts : List Thread)
    → Free callback_access all
    → Free data_access all
    → Free callback_access ts
    → Free data_access ts
    → All ThreadOrdered ts
    → All Finished ts ⊎ Goes all ts
any_thread all [] c d c' d' h = inl tt
any_thread all (at true b p ∷ ts) c d c' d' h = cc
any_thread all (at false true p ∷ ts) c d c' d' h = cc
any_thread all (at false false [] ∷ ts) c d c' d' h = elim (any_thread all ts c d c'.1 d'.1 h.1) [
  | inl done ↦ inl (refl, done)
  | inr goes ↦ inr (Goes-there _ goes)
]
any_thread all (at false false (lock data_access ∷ p) ∷ ts) c d c' d' h =
    inr (at true false p ∷ ts, here (lock_data d))
any_thread all (at false false (lock callback_access ∷ p) ∷ ts) c d c' d' h =
    inr (at false true p ∷ ts, here (lock_callback c))
any_thread all (at false false (unlock data_access ∷ p) ∷ ts) c d c' d' h = cc
any_thread all (at false false (unlock callback_access ∷ p) ∷ ts) c d c' d' h = cc

pub progress : (ts : List Thread) → All ThreadOrdered ts → All Finished ts ⊎ Goes ts ts
progress ts h = elim (any_callback ts ts h) [
  | inr goes ↦ inr goes
  | inl c ↦ elim (any_data ts ts c c h) [ inr goes ↦ inr goes | inl d ↦ any_thread ts ts c d c d h ]
]
