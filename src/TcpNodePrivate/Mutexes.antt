-- ===== src/TcpNodePrivate/Mutexes.antt =====
-- src/TcpNodePrivate.hpp, m_data_access and m_callback_access: threads that take and give up the two
-- mutexes, one operation at a time. What a thread does with the mutexes is a list of operations;
-- any thread may go next whose next operation is possible.
use simpwire.Prelude.{ℕ, suc, ◌+◌, Bool, true, false, ◌≡◌, List, [], ◌∷◌, All, length}
pub mod Programs
pub mod Progress
pub mod Order
pub mod Freedom
pub mod Deadlock
mod Tests

pub data Mutex : Type 0 where
  data_access callback_access : Mutex

pub data Op : Type 0 where
  lock unlock : Mutex → Op

-- Which of the two a thread holds, and what it is still to do.
pub data Thread : Type 0 where
  at : (data_held callback_held : Bool) → List Op → Thread

abbrev pub holds : Mutex → Thread → Bool
holds data_access (at d c p) = d
holds callback_access (at d c p) = c

abbrev pub Free : Mutex → List Thread → Type 0
Free m = All λ t. holds m t ≡ false

-- A mutex is taken if no thread of all holds it, the thread itself included: neither mutex is
-- recursive.
pub data Move (all : List Thread) : Thread → Thread → Type 0 where
  lock_data :
      {d c : Bool} {p : List Op}
      → Free data_access all
      → Move all (at d c (lock data_access ∷ p)) (at true c p)
  lock_callback :
      {d c : Bool} {p : List Op}
      → Free callback_access all
      → Move all (at d c (lock callback_access ∷ p)) (at d true p)
  unlock_data :
      {d c : Bool} {p : List Op} → Move all (at d c (unlock data_access ∷ p)) (at false c p)
  unlock_callback :
      {d c : Bool} {p : List Op} → Move all (at d c (unlock callback_access ∷ p)) (at d false p)

-- One of the threads in the list moves.
pub data Step (all : List Thread) : List Thread → List Thread → Type 0 where
  here : {t u : Thread} {ts : List Thread} → Move all t u → Step all (t ∷ ts) (u ∷ ts)
  there : {t : Thread} {ts us : List Thread} → Step all ts us → Step all (t ∷ ts) (t ∷ us)

-- So many steps, one after the other.
pub data Run : ℕ → List Thread → List Thread → Type 0 where
  stay : {ts : List Thread} → Run 0 ts ts
  step : {n : ℕ} {ts us vs : List Thread} → Step ts ts us → Run n us vs → Run (suc n) ts vs

abbrev pub Finished : Thread → Type 0
Finished (at d c p) = p ≡ []

-- What all threads together are still to do.
abbrev pub remaining : List Thread → ℕ
remaining [] = 0
remaining (at d c p ∷ ts) = length p + remaining ts
