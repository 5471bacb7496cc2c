-- ===== src/TcpNodePrivate/Mutexes/Freedom.antt =====
-- src/TcpNodePrivate.cpp: threads that start with neither mutex, and do any activities.
use simpwire.Prelude.{ℕ, ◌≤◌, false, ◌⊎◌, List, [], ◌∷◌, All, arith}
use simpwire.TcpNodePrivate.Mutexes.{Thread, at, Run, Finished, remaining}
use simpwire.TcpNodePrivate.Mutexes.Programs.{Activity, program}
use simpwire.TcpNodePrivate.Mutexes.Progress.{
  ThreadOrdered, Run-Ordered, Run-remaining, Goes, progress,
}
use simpwire.TcpNodePrivate.Mutexes.Order.{Permitted, program-Ordered}

unfoldable pub threads : List (List Activity) → List Thread
threads [] = []
threads (activities ∷ rest) = at false false (program activities) ∷ threads rest

threads-Ordered :
    (ts : List (List Activity)) → All (All Permitted) ts → All ThreadOrdered (threads ts)
unfolding threads
threads-Ordered [] h = tt
threads-Ordered (activities ∷ rest) h = (program-Ordered activities h.0, threads-Ordered rest h.1)

-- Let threads start with neither mutex, each do any activities one after the other, and let the
-- user's functions keep to the order of the mutexes, with none set for the end of listening.
-- However far they have run, in any interleaving, the threads cannot block one another for good:
-- either all are finished, or one can go on; and there are at most as many steps as the threads
-- have operations on the mutexes in all.
pub threads-progress :
    (ts : List (List Activity))
    → All (All Permitted) ts
    → (n : ℕ) → (us : List Thread) → Run n (threads ts) us
    → (n ≤ remaining (threads ts)) × (All Finished us ⊎ Goes us us)
threads-progress ts h n us r =
    (omega (arith, Run-remaining r), progress us (Run-Ordered r (threads-Ordered ts h)))
