-- ===== src/TcpNodePrivate/Mutexes/Tests.antt =====
-- The two mutexes: runs of some threads.
use simpwire.Prelude.{◌≤◌, refl, false, none, some, List, [], ◌∷◌, ◌++◌, ◌⊎◌, All, true}
use simpwire.TcpNodePrivate.Mutexes.{
  stay, step, here, lock_data, Thread, at, Run, Finished, remaining, lock, unlock, data_access,
}
use simpwire.TcpNodePrivate.Mutexes.Programs.{
  program, Activity, locks, wait, listen_serve, connect_to, connected, send_refused, send_process,
  stop_listener,
}
use simpwire.TcpNodePrivate.Mutexes.Progress.{Goes}
use simpwire.TcpNodePrivate.Mutexes.Freedom.{threads, threads-progress}
use simpwire.TcpNodePrivate.Mutexes.Deadlock.{stop-refusal-stuck}

-- A listen thread whose callback sends, a user that connects and sends to an unknown peer, a
-- connect thread and a send thread.
abbrev four_threads : List (List Activity)
four_threads =
    (wait ∷ listen_serve (some [] ∷ none ∷ []) ∷ [])
    ∷ (connect_to true ∷ send_refused (some []) ∷ [])
    ∷ (connected (some []) ∷ [])
    ∷ (send_process true (some [] ∷ []) ∷ [])
    ∷ []

-- The listen thread has taken the mutex of the data for its wait.
abbrev after_one : List Thread
after_one =
    at true false (unlock data_access ∷ program (listen_serve (some [] ∷ none ∷ []) ∷ []))
    ∷ threads (
        (connect_to true ∷ send_refused (some []) ∷ [])
        ∷ (connected (some []) ∷ [])
        ∷ (send_process true (some [] ∷ []) ∷ [])
        ∷ [])

first_step : Run 1 (threads four_threads) after_one
unfolding threads program locks
first_step = step (here (lock_data (refl, (refl, (refl, (refl, tt)))))) stay

threads-progress_example :
    (1 ≤ remaining (threads four_threads)) × (All Finished after_one ⊎ Goes after_one after_one)
threads-progress_example =
    threads-progress four_threads
      (
        (tt, (((refl, refl), (tt, tt)), tt)),
        ((tt, ((refl, refl), tt)), (((refl, refl), tt), ((((refl, refl), tt), tt), tt))),
      )
      1 after_one first_step

abbrev one_other : List Thread
one_other = at false false (lock data_access ∷ unlock data_access ∷ []) ∷ []

stop-refusal-stuck_example :
    (us : List Thread) × Run 4
      (at false false (locks (stop_listener (some [])) ++ [])
        ∷ at false false (locks (send_refused (some [])) ++ [])
        ∷ one_other)
      us
    × ¬ Goes us us
stop-refusal-stuck_example =
    stop-refusal-stuck [] [] (some []) one_other
      ((refl, refl, (refl, refl, (refl, (refl, refl)))), tt)
