-- ===== src/TcpNodePrivate/Safety/SendThread.antt =====
-- A turn of the send thread.
use simpwire.Prelude.{
  sym, length, ◌||◌, ℕ, true, false, ◌≡◌, refl, ◌∙◌, none, some, Option, List, [], ◌∷◌, arith, not,
  ◌==◌, ltb,
}
use simpwire.ISocket.{ISocket, Bytes}
use simpwire.PeerPrivate.{PeerPrivate, schedule_delete, set_error_message}
use simpwire.TcpNodePrivate.State.{State, ThreadPc, Callback, of_amount}
use simpwire.TcpNodePrivate.Map.{find}
use simpwire.TcpNodePrivate.Messages.{create_error_message}
use simpwire.TcpNodePrivate.Contracts.{Ends, Ends-bind, Ends-if, call_socket-Frame}
use simpwire.TcpNodePrivate.Frames.{notify-Frame, create_error_message-Frame}
use simpwire.TcpNodePrivate.Invariant.{HasSocket, HasSocket-Extends}
use simpwire.TcpNodePrivate.Ownership.{Tracks-modify_at, find-Sound}
use simpwire.TcpNodePrivate.Sections.{
  Sect, Sect-Frame, Sect-Tracks, Ends-Sect, lock_data-Sect, unlock_data-Sect, lock_callback-Sect,
  unlock_callback-Sect,
}
use simpwire.TcpNodePrivate.SendThread.{
  send_unknown, send_done, send_failed, send_through, send_one, send_found, wrap8, send_front,
  send_process, send_turn_at, send_turn,
}

module _ {I : ISocket} where
  send_unknown-Sect :
      {n l : ℕ} (s : State I)
      → Sect true false n l s
      → Ends (λ _ t. Sect true false n l t) (send_unknown s)
  unfolding send_unknown create_error_message
  send_unknown-Sect s h = Ends-bind _ (lock_callback-Sect h) λ _ t ht.
      Ends-bind _ (Ends-Sect ht (notify-Frame _ _ t ht.callback_lock))
        λ _ u hu. unlock_callback-Sect hu

  send_done-Sect :
      {n l : ℕ} (p : PeerPrivate) (amount : ℕ) (s : State I)
      → Sect true false n l s
      → Ends (λ _ t. Sect true false n l t) (send_done p amount s)
  unfolding send_done
  send_done-Sect p amount s h = Ends-bind _ (lock_callback-Sect h) λ _ t ht.
      Ends-bind _ (Ends-Sect ht (notify-Frame _ (of_amount p amount) t ht.callback_lock))
        λ _ u hu. unlock_callback-Sect hu

  send_failed-Sect :
      {n l a : ℕ} (f : Callback) (k : ℕ) (s : State I)
      → Sect true false n l s
      → HasSocket s.store l (some a)
      → Ends (λ _ t. Sect true false n l t) (send_failed f k a s)
  unfolding send_failed schedule_delete set_error_message
  send_failed-Sect none k s h own = record { holds = h }
  send_failed-Sect {a} (some f) k s h own =
      Ends-bind _ (create_error_message-Frame _ _ a s own.0) λ msg t g. record {
        holds = Sect-Tracks _ (Sect-Frame h g) (
            Tracks-modify_at k _ t.peers
              λ p. record { socket = refl; connection_id = refl; valid = refl });
      }

  send_through-Sect :
      {n l : ℕ} (k : ℕ) (p : PeerPrivate) (dat : Bytes) (sock : Option ℕ) (s : State I)
      → Sect true false n l s
      → HasSocket s.store l sock
      → Ends (λ _ t. Sect true false n l t) (send_through k p dat sock s)
  unfolding send_through
  send_through-Sect k p dat none s h own = absurd own
  send_through-Sect {l} k p dat (some a) s h own =
      Ends-bind _ (call_socket-Frame (I.send dat) a s own.0) λ sent t f.
        Ends-if (ltb 0 sent) _ _ t (λ _. send_done-Sect p sent t (Sect-Frame h f))
          λ _.
            send_failed-Sect t.callbacks.send_error k t (Sect-Frame h f)
              (HasSocket-Extends l (some a) f.store own)

  pub send_one-Sect :
      {n l : ℕ} (k : ℕ) (dat : Bytes) (s : State I)
      → Sect true false n l s
      → Ends (λ _ t. Sect true false n l t) (send_one k dat s)
  unfolding send_one send_found
  send_one-Sect {n} {l} k dat s h = go (find k s.peers) refl
    where
      go :
          (r : Option PeerPrivate)
          → find k s.peers ≡ r
          → Ends (λ _ t. Sect true false n l t) (send_found k dat r s)
      go none e = send_unknown-Sect s h
      go (some p) e =
          let sound =
            find-Sound s.store s.listener s.connection_counter k p s.peers h.core.owned e in
          Ends-if p.to_be_deleted _ _ s (λ _. record { holds = h })
            λ _. send_through-Sect k p dat p.socket s h (own_at p.socket sound.own)
        where
          own_at : (sock : Option ℕ) → HasSocket s.store s.listener sock → HasSocket s.store l sock
          own_at none own = own
          own_at (some a) own = (own.0, own.1, λ t. own.2 (t ∙ sym h.listener))

  send_front-Sect :
      {n l : ℕ} (q : List (ℕ × Bytes)) (s : State I)
      → Sect true false n l s
      → Ends (λ _ t. Sect true false n l t) (send_front q s)
  unfolding send_front
  send_front-Sect [] s h = record { holds = h }
  send_front-Sect ((k, dat) ∷ q) s h =
      Ends-bind _ (send_one-Sect k dat s h) λ _ t ht. record {
        holds = Sect-Frame {t = record t { data_to_send = q }} ht (ground arith);
      }

  pub send_process-Sect :
      {n l : ℕ} (s : State I)
      → Sect false false n l s
      → Ends (λ _ t. Sect false false n l t) (send_process s)
  unfolding send_process
  send_process-Sect s h = Ends-bind _ (lock_data-Sect h) λ _ t ht.
      Ends-bind _ (send_front-Sect t.data_to_send t ht) λ _ u hu.
        Ends-bind _ (unlock_data-Sect hu) λ _ v hv. record {
          holds = Sect-Frame {t = record v { send_thread = ThreadPc.at_top }} hv (ground arith);
        }

  send_turn_at-Sect :
      {n l : ℕ} (pc : ThreadPc) (s : State I)
      → Sect false false n l s
      → Ends (λ _ t. Sect false false n l t) (send_turn_at pc s)
  unfolding send_turn_at
  send_turn_at-Sect ThreadPc.not_started s h = record { holds = h }
  send_turn_at-Sect ThreadPc.finished s h = record { holds = h }
  send_turn_at-Sect ThreadPc.asleep s h = record { holds = h }
  send_turn_at-Sect ThreadPc.at_top s h =
      Ends-if (not s.send_thread_running) _ _ s
        (λ _. record {
          holds = Sect-Frame {t = record s { send_thread = ThreadPc.finished }} h (ground arith);
        })
        λ _.
          Ends-if (wrap8 (length s.data_to_send) == 0) _ _ s
            (λ _. record {
              holds = Sect-Frame {t = record s { send_thread = ThreadPc.waiting }} h (ground arith);
            })
            λ _. send_process-Sect s h
  send_turn_at-Sect ThreadPc.waiting s h =
      Ends-if (not (length s.data_to_send == 0) || s.destructor_called) send_process _ s
        (λ _. send_process-Sect s h)
        λ _. record {
          holds = Sect-Frame {t = record s { send_thread = ThreadPc.asleep }} h (ground arith);
        }

  pub send_turn-Sect :
      {n l : ℕ} (s : State I)
      → Sect false false n l s
      → Ends (λ _ t. Sect false false n l t) (send_turn s)
  unfolding send_turn
  send_turn-Sect s h = send_turn_at-Sect s.send_thread s h
