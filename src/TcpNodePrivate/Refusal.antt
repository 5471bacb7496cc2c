-- ===== src/TcpNodePrivate/Refusal.antt =====
-- What a user hears who sends to a peer that the node does not know.
use simpwire.Prelude.{ℕ, Bool, true, false, ◌≡◌, refl, none, some, ◌∷◌, arith}
use simpwire.ISocket.{ISocket, Bytes}
use simpwire.Peer.{Peer, id}
use simpwire.TcpNodePrivate.State.{State, Callback, Arguments, Event}
use simpwire.TcpNodePrivate.Monad.{invoke, unlock_callback, unlock_data, when, notify_send, ◌>>◌}
use simpwire.TcpNodePrivate.Messages.{create_error_message}
use simpwire.TcpNodePrivate.Contracts.{Ends, Ends-bind, Ends-if}
use simpwire.TcpNodePrivate.Locks.{Ends-lock_data, Ends-lock_callback}
use simpwire.TcpNodePrivate.Invariant.{Inv}
use simpwire.TcpNodePrivate.Requests.{
  peer_exists, report_refused, send_refused, send_queued, send_data,
}

abbrev pub under_both : ℕ → Arguments → Event
under_both f args = record {
  function = f;
  arguments = args;
  data_locked = true;
  callback_locked = true;
}

module _ {I : ISocket} where
  -- From `s` to `t` the function `f` was called under both mutexes, and nothing was queued.
  pub record Refused (f : ℕ) (s t : State I) : Type 0 where
    pub called : (args : Arguments) × (t.events ≡ under_both f args ∷ s.events)
    pub unqueued : t.data_to_send ≡ s.data_to_send

  record Locked (d c : Bool) (t : State I) : Type 0 where
    data_lock : t.data_access ≡ d
    callback_lock : t.callback_access ≡ c

  invoke-Refused :
      (g f : ℕ) (args : Arguments) (s : State I)
      → g ≡ f
      → Locked true true s
      → Ends (λ _ t. Locked true true t × Refused f s t) (invoke g args s)
  unfolding invoke
  invoke-Refused g f args s e h = record {
    holds = (
      record { data_lock = h.data_lock; callback_lock = h.callback_lock },
      record { called = (args, ground (arith, h.data_lock, h.callback_lock)); unqueued = refl },
    );
  }

  report_refused-Refused :
      (c : Callback) (f : ℕ) (pr : Peer) (s : State I)
      → c ≡ some f
      → Locked true true s
      → Ends (λ _ t. Locked true true t × Refused f s t) (report_refused c pr s)
  unfolding report_refused create_error_message
  report_refused-Refused none f pr s e h = cc
  report_refused-Refused (some g) f pr s e h = invoke-Refused g f _ s (ground arith) h

  send_refused-Refused :
      (f : ℕ) (pr : Peer) (s : State I)
      → s.callbacks.send_error ≡ some f
      → Locked true false s
      → Ends (λ _ t. Locked true false t × Refused f s t) (send_refused pr s)
  unfolding send_refused unlock_callback
  send_refused-Refused f pr s e h = Ends-lock_callback _ s h.callback_lock (
      Ends-bind _
        (report_refused-Refused s.callbacks.send_error f pr _ e
          (record { data_lock = h.data_lock; callback_lock = refl }))
        λ _ t (l, r). unlocked t l r)
    where
      unlocked :
          (t : State I)
          → Locked true true t
          → Refused f (record s { callback_access = true }) t
          → Ends (λ _ u. Locked true false u × Refused f s u) (unlock_callback t)
      unlocked t l r = record {
        holds =
            rw (l.callback_lock, unlock_callback)
              (
                record { data_lock = l.data_lock; callback_lock = refl },
                record { called = r.called; unqueued = r.unqueued },
              );
      }

  -- In a node with the invariant, `sendData` to a peer that the map does not hold, with a function
  -- for send errors set: it ends without a fault, has queued nothing, and has called that
  -- function once, while the calling thread held both mutexes.
  pub send_data-Refused :
      (f : ℕ) (pr : Peer) (dat : Bytes) (s : State I)
      → Inv s
      → peer_exists (id pr) s.peers ≡ false
      → s.callbacks.send_error ≡ some f
      → Ends (λ _ t. Refused f s t) (send_data pr dat s)
  unfolding send_data unlock_data
  send_data-Refused f pr dat s h unknown e = Ends-lock_data _ s h.data_free (
      Ends-bind {P = λ _ t. Locked true false t × Refused f (record s { data_access = true }) t} _
        (Ends-if (peer_exists (id pr) s.peers) (send_queued pr dat) (send_refused pr) _
          (λ known. cc)
          λ _.
            send_refused-Refused f pr _ e
              (record { data_lock = refl; callback_lock = h.callback_free }))
        λ _ t (l, r). unlocked (peer_exists (id pr) s.peers) t unknown l r)
    where
      unlocked :
          (known : Bool) (t : State I)
          → known ≡ false
          → Locked true false t
          → Refused f (record s { data_access = true }) t
          → Ends (λ _ u. Refused f s u) ((unlock_data >> when known notify_send) t)
      unlocked known t gone l r = rw gone (record {
        holds = rw (l.data_lock, unlock_data) (record { called = r.called; unqueued = r.unqueued });
      })
