-- ===== src/TcpNodePrivate/Frames.antt =====
-- The steps that leave alone what the invariant speaks of.
use simpwire.Prelude.{ℕ, true, ◌≡◌, ◌≢◌, some, none, arith, Text, Bool-cases, inl, inr, ◌==◌}
use simpwire.ISocket.{ISocket}
use simpwire.TcpNodePrivate.State.{State, Callback, Arguments}
use simpwire.TcpNodePrivate.Monad.{unlock_callback, lock_callback, invoke}
use simpwire.TcpNodePrivate.Contracts.{
  Ends, Ends-bind, Frame, Frame-refl, Frame-trans, call_socket-Frame,
}
use simpwire.TcpNodePrivate.Notify.{notify}
use simpwire.TcpNodePrivate.Messages.{create_error_message}

module _ {I : ISocket} where
  pub notify-Frame :
      (f : Callback) (args : Arguments) (s : State I)
      → s.callback_access ≡ true
      → Ends (λ _ t. Frame s t) (notify f args s)
  unfolding notify unlock_callback invoke lock_callback
  notify-Frame none args s h = record { holds = Frame-refl s }
  notify-Frame (some f) args s h = ground arith

  pub create_error_message-Frame :
      (h b : Text) (a : ℕ) (s : State I)
      → s.store.cell a ≢ none
      → Ends (λ _ t. Frame s t) (create_error_message h b (some a) s)
  unfolding create_error_message
  create_error_message-Frame h b a s live = Ends-bind _ (call_socket-Frame _ a s live) λ n t f.
      elim (Bool-cases (n == 0)) [
        | inl e ↦ rw e (record { holds = f })
        | inr e ↦ rw e (
            Ends-bind _ (call_socket-Frame _ a t (f.store.keeps a live))
              λ text u g. record { holds = Frame-trans f g })
      ]
