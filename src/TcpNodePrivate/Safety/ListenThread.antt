-- ===== src/TcpNodePrivate/Safety/ListenThread.antt =====
-- A turn of the listen thread.
use simpwire.Prelude.{ℕ, suc, ◌+◌, ◌<◌, ◌^◌, true, false, arith, not}
use simpwire.ISocket.{ISocket}
use simpwire.TcpNodePrivate.State.{State, ThreadPc}
use simpwire.TcpNodePrivate.Contracts.{Ends, Ends-bind, Ends-if, Ends-when, Ends-mono}
use simpwire.TcpNodePrivate.Sections.{
  Sect, Sect-Frame, Sect-later, Sect-Tracks, lock_data-Sect, unlock_data-Sect,
}
use simpwire.TcpNodePrivate.Receive.{receive_all}
use simpwire.TcpNodePrivate.Listener.{listen_enable}
use simpwire.TcpNodePrivate.ListenThread.{listen_serve, listen_turn_at, listen_turn, listen_awake}
use simpwire.TcpNodePrivate.Safety.Listener.{listen_enable-Sect}
use simpwire.TcpNodePrivate.Safety.Accept.{accept_new-Sect}
use simpwire.TcpNodePrivate.Safety.Receive.{receive_all-Frame}
use simpwire.TcpNodePrivate.Safety.Remove.{delete_next-Sect}

module _ {I : ISocket} where
  -- What is received changes the peers in place.
  receive_stage-Sect :
      {n l : ℕ} (s : State I)
      → Sect true false n l s
      → Ends (λ qs t. Sect true false n l (record t { peers = qs })) (receive_all s.peers s)
  receive_stage-Sect s h =
      Ends-mono
        (receive_all-Frame s.listener s.connection_counter s.peers s h.callback_lock h.core.owned)
        λ qs t (f, tracks). Sect-Tracks qs (Sect-Frame h f) (rw f.peers tracks)

  pub listen_serve-Sect :
      {n l : ℕ} (s : State I)
      → Sect false false n l s
      → n + 1 < 2 ^ 64
      → Ends (λ _ t. Sect false false (suc n) l t) (listen_serve s)
  unfolding listen_serve
  listen_serve-Sect s h fits = Ends-bind _ (lock_data-Sect h) λ _ t ht.
      Ends-bind _ (accept_new-Sect t ht (omega (arith, ht.counted))) λ _ u hu.
        Ends-bind _ (receive_stage-Sect u hu)
          λ qs v hv. Ends-bind _ (delete_next-Sect _ hv) λ _ w hw. unlock_data-Sect hw

  -- The thread's position is none of the invariant's business.
  at_pc :
      {n l : ℕ} (pc : ThreadPc) (s : State I)
      → Sect false false n l s
      → Sect false false n l (record s { listen_thread = pc })
  at_pc pc s h = Sect-Frame h (ground arith)

  listen_turn_at-Sect :
      {n l : ℕ} (pc : ThreadPc) (s : State I)
      → Sect false false n l s
      → n + 1 < 2 ^ 64
      → Ends (λ _ t. Sect false false (suc n) l t) (listen_turn_at pc s)
  unfolding listen_turn_at
  listen_turn_at-Sect ThreadPc.not_started s h fits = record { holds = Sect-later h }
  listen_turn_at-Sect ThreadPc.asleep s h fits = record { holds = Sect-later h }
  listen_turn_at-Sect ThreadPc.finished s h fits = record { holds = Sect-later h }
  listen_turn_at-Sect ThreadPc.at_top s h fits =
      Ends-bind _
        (Ends-when s.listen_thread_running listen_enable s (λ _. listen_enable-Sect s h) λ _. h)
        λ _ t ht. record { holds = Sect-later (at_pc _ t ht) }
  listen_turn_at-Sect ThreadPc.waiting s h fits =
      Ends-if (not (listen_awake s)) _ _ s
        (λ _. record { holds = Sect-later (at_pc ThreadPc.asleep s h) })
        λ _.
          Ends-if s.destructor_called _ _ s
            (λ _. record { holds = Sect-later (at_pc ThreadPc.finished s h) })
            λ _.
              Ends-bind _ (listen_serve-Sect s h fits)
                λ _ t ht. record { holds = at_pc ThreadPc.at_top t ht }

  pub listen_turn-Sect :
      {n l : ℕ} (s : State I)
      → Sect false false n l s
      → n + 1 < 2 ^ 64
      → Ends (λ _ t. Sect false false (suc n) l t) (listen_turn s)
  unfolding listen_turn
  listen_turn-Sect s h fits = listen_turn_at-Sect s.listen_thread s h fits
