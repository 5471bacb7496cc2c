-- ===== src/TcpNodePrivate/SendOrder.antt =====
-- The order in which the send thread serves its queue.
use simpwire.Prelude.{◌%◌, ℕ, true, false, ◌≡◌, ◌≢◌, refl, [], ◌∷◌, List, arith, length}
use simpwire.ISocket.{ISocket, Bytes}
use simpwire.Store.{ok}
use simpwire.TcpNodePrivate.State.{State, ThreadPc}
use simpwire.TcpNodePrivate.Contracts.{Ends, Ends-bind}
use simpwire.TcpNodePrivate.Locks.{Ends-lock_data, Ends-unlock_data}
use simpwire.TcpNodePrivate.Invariant.{Inv}
use simpwire.TcpNodePrivate.Sections.{Sect, Sect-Inv, Sect-Frame, Sect-data}
use simpwire.TcpNodePrivate.Safety.SendThread.{send_one-Sect}
use simpwire.TcpNodePrivate.SendThread.{send_process, send_turn, send_turn_at, send_front}

module _ {I : ISocket} where
  -- A send thread that has looked at its queue and waits serves it, if it holds anything.
  pub waiting-send_process :
      (s : State I)
      → s.send_thread ≡ ThreadPc.waiting
      → s.data_to_send ≢ []
      → send_turn s ≡ send_process s
  unfolding send_turn send_turn_at
  waiting-send_process s e more = ground arith

  -- A running send thread at the head of its loop, with something in its queue. If the number of
  -- entries is not a multiple of 256, its next turn serves the queue. If it is, that turn only makes
  -- the thread wait, and the turn after it serves.
  pub send_turn-send_process :
      (s : State I)
      → s.send_thread ≡ ThreadPc.at_top
      → s.send_thread_running ≡ true
      → s.data_to_send ≢ []
      → (length s.data_to_send % 256 ≢ 0 → send_turn s ≡ send_process s)
        × (length s.data_to_send % 256 ≡ 0
            → (send_turn s ≡ ok (tt, record s { send_thread = ThreadPc.waiting }))
              × (send_turn (record s { send_thread = ThreadPc.waiting })
                  ≡ send_process (record s { send_thread = ThreadPc.waiting })))
  unfolding send_turn send_turn_at
  send_turn-send_process s e running more =
      (λ some_there. ground arith, λ wraps. (ground arith, waiting-send_process _ refl more))

  send_front-queue :
      {n l k : ℕ} {dat : Bytes} {q : List (ℕ × Bytes)} (xs : List (ℕ × Bytes)) (s : State I)
      → xs ≡ (k, dat) ∷ q
      → Sect true false n l s
      → Ends (λ _ t. Sect true false n l t × (t.data_to_send ≡ q)) (send_front xs s)
  unfolding send_front
  send_front-queue [] s e h = cc
  send_front-queue ((j, bytes) ∷ xs) s e h = Ends-bind _ (send_one-Sect j bytes s h) λ _ t ht.
      record {
        holds = (Sect-Frame {t = record t { data_to_send = xs }} ht (ground arith), ground arith);
      }

  -- In a node with the invariant whose send queue is not empty, serving the queue ends without a
  -- fault; afterwards the first entry is off the queue and no other, and the thread is at the head
  -- of its loop.
  pub send_process-data_to_send :
      (k : ℕ) (dat : Bytes) (q : List (ℕ × Bytes)) (s : State I)
      → Inv s
      → s.data_to_send ≡ (k, dat) ∷ q
      → Ends (λ _ t. (t.data_to_send ≡ q) × (t.send_thread ≡ ThreadPc.at_top)) (send_process s)
  unfolding send_process
  send_process-data_to_send k dat q s h e = Ends-lock_data _ s h.data_free (
      Ends-bind
        {P = λ _ t. Sect true false s.connection_counter s.listener t × (t.data_to_send ≡ q)} _
        (send_front-queue s.data_to_send _ e (Sect-data true (Sect-Inv h)))
        λ _ t (ht, left). Ends-unlock_data _ t ht.data_lock (record { holds = (left, refl) }))
