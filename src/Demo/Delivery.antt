-- ===== src/Demo/Delivery.antt =====
-- From a typed line to the socket.
use simpwire.Prelude.{
  Bool, true, ◌≢◌, ◌⊎◌, inl, inr, refl, if◌then◌else◌, length, ℕ, false, ◌≡◌, ◌<◌, ◌^◌, ◌∙◌, ap,
  some, List, [], ◌∷◌, ◌++◌, Text, to_string, All,
}
use simpwire.ISocket.{ISocket, Bytes}
use simpwire.PeerPrivate.{PeerPrivate}
use simpwire.TcpNodePrivate.State.{State, ThreadPc, woken}
use simpwire.TcpNodePrivate.Monad.{Action, ◌>>◌}
use simpwire.TcpNodePrivate.Map.{find}
use simpwire.TcpNodePrivate.Contracts.{Ends, Ends-bind, Ends-mono, Ends-both}
use simpwire.TcpNodePrivate.Invariant.{Inv}
use simpwire.TcpNodePrivate.SendThread.{send_process, send_turn}
use simpwire.TcpNodePrivate.SendOrder.{
  send_process-data_to_send, send_turn-send_process, waiting-send_process,
}
use simpwire.TcpNodePrivate.Delivery.{given, send_process-given}
use simpwire.Demo.Tokens.{tokenize}
use simpwire.Demo.Tokens.Laws.{join}
use simpwire.Demo.Console.{send_word}
use simpwire.Demo.Commands.{handle}
use simpwire.Demo.Effects.{spaces, IsWord, handle-Queued}
use simpwire.Demo.Safety.{handle-Inv}

-- A send thread that is marked as running is up once it has been notified.
up :
    (running : Bool) (pc after : ThreadPc)
    → (running ≡ true → (pc ≢ ThreadPc.not_started) × (pc ≢ ThreadPc.finished))
    → after ≡ (if running then woken pc else ThreadPc.at_top)
    → (after ≡ ThreadPc.at_top) ⊎ (after ≡ ThreadPc.waiting)
up true ThreadPc.not_started after started e = absurd ((started refl).0 refl)
up true ThreadPc.finished after started e = absurd ((started refl).1 refl)
up true ThreadPc.at_top after started e = inl e
up true ThreadPc.waiting after started e = inr e
up true ThreadPc.asleep after started e = inr e
up false pc after started e = inl e

module _ {I : ISocket} where
  -- Its next turn serves the one entry of the queue.
  served :
      (s : State I) (e : ℕ × Bytes)
      → s.data_to_send ≡ e ∷ []
      → s.send_thread_running ≡ true
      → (s.send_thread ≡ ThreadPc.at_top) ⊎ (s.send_thread ≡ ThreadPc.waiting)
      → send_turn s ≡ send_process s
  served s e queue running (inl top) =
      (send_turn-send_process s top running λ none_there. cc).0 (rw (ap length queue) λ z. cc)
  served s e queue running (inr waits) = waiting-send_process s waits λ none_there. cc

  -- A line of the user, and then a turn of the send thread.
  unfoldable pub handle_then_send : Text → Action I (Unit {0})
  handle_then_send line = do handle (tokenize line spaces); send_turn

  -- A node with the invariant, whose send queue is empty, and whose send thread, if it is marked as
  -- running, has been started and is not finished; it may be asleep. After the line "Send", the decimal
  -- number of a peer of the map that is not to be deleted (a number that fits an int), and one or
  -- more words, with one space between any two, the next turn of the send thread gives the peer's socket object the
  -- words with one space between any two, once, uses no socket otherwise and leaves an empty
  -- queue. This holds if the socket object reports that it sent some of the bytes.
  pub handle_then_send-given :
      (k a : ℕ) (o : I.Sock) (p : PeerPrivate) (w : Text) (ws : List Text) (s : State I)
      → Inv s
      → s.data_to_send ≡ []
      → (s.send_thread_running ≡ true
          → (s.send_thread ≢ ThreadPc.not_started) × (s.send_thread ≢ ThreadPc.finished))
      → find k s.peers ≡ some p
      → k < 2 ^ 31
      → All IsWord (w ∷ ws)
      → p.to_be_deleted ≡ false
      → p.socket ≡ some a
      → s.store.cell a ≡ some o
      → 0 < (I.send (join 32 (w ∷ ws)) o s.store.world).0
      → Ends
          (λ _ t. (t.store ≡ given a o (join 32 (w ∷ ws)) s.store) × (t.data_to_send ≡ []))
          (handle_then_send (join 32 (send_word ∷ to_string k ∷ w ∷ ws)) s)
  unfolding handle_then_send
  handle_then_send-given k a o p w ws s h empty started found small are_words kept sock there
        some_sent =
      Ends-bind _
        (Ends-both (handle-Inv (tokenize (join 32 (send_word ∷ to_string k ∷ w ∷ ws)) spaces) s h)
          (handle-Queued k p w ws s h found small are_words))
        λ ls t ((inv, _), (_, q)).
          let queue : t.data_to_send ≡ (k, join 32 (w ∷ ws)) ∷ [] =
            q.queue ∙ ap (λ d. d ++ (k, join 32 (w ∷ ws)) ∷ []) empty in
          rw
            (served t (k, join 32 (w ∷ ws)) queue q.running
              (up s.send_thread_running s.send_thread t.send_thread started q.thread))
            (Ends-mono
              (Ends-both
                (send_process-given k a o p (join 32 (w ∷ ws)) [] t inv queue
                  (ap (find k) q.peers ∙ found) kept sock (ap (λ m. m.cell a) q.store ∙ there)
                  (rw (q.store) some_sent))
                (send_process-data_to_send k (join 32 (w ∷ ws)) [] t inv queue))
              λ _ u (stored, (left, _)). (stored ∙ ap (given a o (join 32 (w ∷ ws))) q.store, left))
