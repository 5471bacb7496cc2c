-- ===== src/TcpNodePrivate/Safety/Listener.antt =====
-- The first part of a turn of the listen thread.
use simpwire.Prelude.{ℕ, true, false, ◌≡◌, ◌≢◌, sym, none, some, arith, not, ◌&&◌}
use simpwire.ISocket.{ISocket}
use simpwire.TcpNodePrivate.State.{State, Callback, Arguments, nothing, of_message, of_port}
use simpwire.TcpNodePrivate.Monad.{when, ◌>>◌, unlock_callback, lock_callback, invoke}
use simpwire.TcpNodePrivate.Contracts.{
  Ends, Ends-if, Ends-when, Ends-bind, Ends-mono, Frame, Frame-refl, Frame-trans,
}
use simpwire.TcpNodePrivate.Frames.{notify-Frame, create_error_message-Frame}
use simpwire.TcpNodePrivate.Sections.{
  Sect, Sect-at, Sect-Frame, Ends-Sect, lock_data-Sect, unlock_data-Sect, lock_callback-Sect,
  unlock_callback-Sect, Sect-listener_lives, call_listener-Sect, get_listener-Sect,
}
use simpwire.TcpNodePrivate.Listener.{
  report_listen_error, listen_failed, listen_started, start_listener, notify_stopped, stop_listener,
  listen_enable,
}

module _ {I : ISocket} where
  pub invoke-Frame :
      (f : ℕ) (args : Arguments) (s : State I) → Ends (λ _ t. Frame s t) (invoke f args s)
  unfolding invoke
  invoke-Frame f args s = ground arith

  -- The mutex of the callbacks is given up and taken again around the call.
  pub released-Frame :
      (f : ℕ) (args : Arguments) (s : State I)
      → s.callback_access ≡ true
      → Ends (λ _ t. Frame s t) ((unlock_callback >> (invoke f args >> lock_callback)) s)
  unfolding unlock_callback invoke lock_callback
  released-Frame f args s h = ground arith

  report_listen_error-Frame :
      (f : Callback) (l : ℕ) (s : State I)
      → s.callback_access ≡ true
      → s.store.cell l ≢ none
      → Ends (λ _ t. Frame s t) (report_listen_error f l s)
  unfolding report_listen_error
  report_listen_error-Frame none l s h live = record { holds = Frame-refl s }
  report_listen_error-Frame (some f) l s h live =
      Ends-bind _ (create_error_message-Frame _ _ l s live) λ msg t g.
        Ends-mono (released-Frame f (of_message msg) t (rw (g.callback_access) h))
          λ _ u k. Frame-trans g k

  listen_failed-Sect :
      {n l : ℕ} {s : State I}
      → Sect true false n l s
      → Ends (λ _ t. Sect true false n l t) (listen_failed l s)
  unfolding listen_failed
  listen_failed-Sect {l} h = Ends-bind _ (lock_callback-Sect h) λ _ t ht.
      Ends-bind _
        (Ends-Sect ht (report_listen_error-Frame _ l t ht.callback_lock (Sect-listener_lives ht)))
        λ _ u hu. unlock_callback-Sect (Sect-Frame hu (ground arith))

  listen_started-Sect :
      {n l : ℕ} {s : State I}
      → Sect true false n l s
      → Ends (λ _ t. Sect true false n l t) (listen_started l s)
  unfolding listen_started
  listen_started-Sect {l} h =
      Ends-bind _ (lock_callback-Sect (Sect-Frame h (ground arith))) λ _ t ht.
        Ends-bind _ (get_listener-Sect I.listen_port ht) λ port u hu.
          Ends-bind _ (Ends-Sect hu (notify-Frame _ (of_port port) u hu.callback_lock))
            λ _ v hv. unlock_callback-Sect hv

  start_listener-Sect :
      {n l : ℕ} {s : State I}
      → Sect false false n l s
      → Ends (λ _ t. Sect false false n l t) (start_listener s)
  unfolding start_listener
  start_listener-Sect {l} h = Ends-bind _ (lock_data-Sect h) λ _ t ht.
      let here = Sect-at (sym ht.listener) ht in
      Ends-mono
        (Ends-bind _ (call_listener-Sect _ here) λ success u hu.
          Ends-bind _
            (Ends-if success _ _ u (λ _. listen_started-Sect hu) (λ _. listen_failed-Sect hu))
            λ _ v hv.
              unlock_data-Sect
                (Sect-Frame {t = record v { changing_listener = false }} hv (ground arith)))
        λ _ v hv. Sect-at ht.listener hv

  notify_stopped-Sect :
      {n l : ℕ} (f : Callback) (s : State I)
      → Sect true true n l s
      → Ends (λ _ t. Sect true true n l t) (notify_stopped f s)
  unfolding notify_stopped
  notify_stopped-Sect none s h = record { holds = h }
  notify_stopped-Sect (some f) s h =
      Ends-bind _ (unlock_data-Sect h)
        λ _ t ht. Ends-bind _ (Ends-Sect ht (invoke-Frame f nothing t)) λ _ u hu. lock_data-Sect hu

  stop_listener-Sect :
      {n l : ℕ} {s : State I}
      → Sect false false n l s
      → Ends (λ _ t. Sect false false n l t) (stop_listener s)
  unfolding stop_listener
  stop_listener-Sect {l} h = Ends-bind _ (lock_data-Sect h) λ _ t ht.
      let here = Sect-at (sym ht.listener) ht in
      Ends-mono
        (Ends-bind _ (call_listener-Sect _ here) λ _ u hu.
          Ends-bind _
            (lock_callback-Sect
              (Sect-Frame {t = record u { listener_available = false }} hu (ground arith)))
            λ _ v hv.
              Ends-bind _ (notify_stopped-Sect _ v hv)
                λ _ w hw. Ends-bind _ (unlock_callback-Sect hw) λ _ x hx. unlock_data-Sect hx)
        λ _ v hv. Sect-at ht.listener hv

  pub listen_enable-Sect :
      {n l : ℕ} (s : State I)
      → Sect false false n l s
      → Ends (λ _ t. Sect false false n l t) (listen_enable s)
  unfolding listen_enable
  listen_enable-Sect s h =
      Ends-bind _
        (Ends-if _ start_listener
          (when (not s.listening_enabled && s.listener_available) stop_listener) s
          (λ _. start_listener-Sect h)
          λ _. Ends-when _ stop_listener s (λ _. stop_listener-Sect h) λ _. h)
        λ _ t ht. record {
          holds = Sect-Frame {t = record t { wakeup_listen_thread = false }} ht (ground arith);
        }
