-- ===== src/TcpNodePrivate/Safety/Accept.antt =====
-- A new connection is accepted.
use simpwire.Prelude.{
  ℕ, suc, ◌+◌, ◌<◌, ◌^◌, true, false, ◌≡◌, ◌≢◌, sym, ◌∙◌, none, some, arith, not, ◌&&◌, Option,
  ◌==◌,
}
use simpwire.ISocket.{ISocket}
use simpwire.TcpNodePrivate.State.{State, Callback, of_message, of_peer}
use simpwire.TcpNodePrivate.Contracts.{
  Ends, Ends-when, Ends-get, Ends-bind, Ends-mono, Frame, Frame-refl, Frame-trans,
  call_socket-Frame,
}
use simpwire.TcpNodePrivate.Frames.{notify-Frame, create_error_message-Frame}
use simpwire.TcpNodePrivate.Sections.{
  Sect, Sect-at, Sect-later, Sect-Frame, Ends-Sect, lock_callback-Sect, unlock_callback-Sect,
  Sect-listener_lives, call_listener-Sect,
}
use simpwire.TcpNodePrivate.Safety.Listener.{released-Frame}
use simpwire.TcpNodePrivate.Accept.{
  report_accept_error, accepted, nothing_accepted, accept_failed, after_accept, accept_from,
  accept_new,
}
use simpwire.TcpNodePrivate.Safety.Loose.{
  Loose-Frame, adopt_socket-Loose, next_id-Sect, make_peer-Frame, insert-Sect,
}

module _ {I : ISocket} where
  accepted-Sect :
      {n l : ℕ} (o : I.Sock) (s : State I)
      → Sect true false n l s
      → s.connection_counter + 1 < 2 ^ 64
      → Ends (λ _ t. Sect true false (suc n) l t) (accepted o s)
  unfolding accepted
  accepted-Sect o s h fits = Ends-bind _ (adopt_socket-Loose o s h) λ a t (f, free).
      Ends-bind _ (next_id-Sect t (Sect-Frame h f) free (omega (arith, f.counter)))
        λ k u (hu, freeu, count, pos, same).
          Ends-bind _ (make_peer-Frame k a u freeu.lives) λ p v (g, id, sock, valid, kept).
            Ends-bind _
              (lock_callback-Sect (
                insert-Sect k p v (Sect-Frame hu g) (Loose-Frame freeu g) (g.counter ∙ count) pos id
                  sock valid))
              λ _ w hw.
                Ends-bind _ (Ends-Sect hw (notify-Frame _ (of_peer p) w hw.callback_lock))
                  λ _ x hx. unlock_callback-Sect hx

  report_accept_error-Frame :
      (f : Callback) (l : ℕ) (s : State I)
      → s.callback_access ≡ true
      → s.store.cell l ≢ none
      → Ends (λ _ t. Frame s t) (report_accept_error f l s)
  unfolding report_accept_error
  report_accept_error-Frame none l s h live = record { holds = Frame-refl s }
  report_accept_error-Frame (some f) l s h live =
      Ends-bind _ (create_error_message-Frame _ _ l s live) λ msg t g.
        Ends-mono (released-Frame f (of_message msg) t (rw (g.callback_access) h))
          λ _ u k. Frame-trans g k

  accept_failed-Sect :
      {n l : ℕ} (s : State I)
      → Sect true false n l s
      → Ends (λ _ t. Sect true false n l t) (accept_failed l s)
  unfolding accept_failed
  accept_failed-Sect {l} s h = Ends-bind _ (lock_callback-Sect h) λ _ t ht.
      Ends-bind _
        (Ends-Sect ht (report_accept_error-Frame _ l t ht.callback_lock (Sect-listener_lives ht)))
        λ _ u hu. unlock_callback-Sect hu

  after_accept-Sect :
      {n l : ℕ} (r : Option I.Sock) (s : State I)
      → Sect true false n l s
      → s.connection_counter + 1 < 2 ^ 64
      → Ends (λ _ t. Sect true false (suc n) l t) (after_accept l r s)
  unfolding after_accept nothing_accepted
  after_accept-Sect {l} none s h fits =
      Ends-bind _ (call_listener-Sect I.get_last_errno h) λ errno t ht.
        Ends-when (not (errno == 0)) (accept_failed l) t
          (λ _. Ends-mono (accept_failed-Sect t ht) λ _ u hu. Sect-later hu) λ _. Sect-later ht
  after_accept-Sect (some o) s h fits = accepted-Sect o s h fits

  accept_from-Sect :
      {n l : ℕ} (s : State I)
      → Sect true false n l s
      → s.connection_counter + 1 < 2 ^ 64
      → Ends (λ _ t. Sect true false (suc n) l t) (accept_from l s)
  unfolding accept_from
  accept_from-Sect {l} s h fits =
      Ends-bind _ (call_socket-Frame I.accept l s (Sect-listener_lives h))
        λ r t f. after_accept-Sect r t (Sect-Frame h f) (omega (arith, f.counter))

  pub accept_new-Sect :
      {n l : ℕ} (s : State I)
      → Sect true false n l s
      → s.connection_counter + 1 < 2 ^ 64
      → Ends (λ _ t. Sect true false (suc n) l t) (accept_new s)
  unfolding accept_new
  accept_new-Sect s h fits =
      let here = Sect-at (sym h.listener) h in
      Ends-mono
        (Ends-get I.is_listener s.listener _ s (Sect-listener_lives here) λ listener.
          Ends-get I.is_listening s.listener _ s (Sect-listener_lives here) λ listening.
            Ends-when (listener && listening && s.listener_available) (accept_from s.listener) s
              (λ _. accept_from-Sect s here fits) λ _. Sect-later here)
        λ _ v hv. Sect-at h.listener hv
