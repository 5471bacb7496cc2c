-- ===== src/TcpNodePrivate/Safety/Attempt/Failure.antt =====
-- A failed attempt: the socket that could not be connected is deleted.
use simpwire.Prelude.{ℕ, Bool, true, false, refl, sym, arith, Text, Option-cases, inl, inr}
use simpwire.ISocket.{ISocket}
use simpwire.Store.{Store, delete_object}
use simpwire.TcpNodePrivate.State.{State}
use simpwire.TcpNodePrivate.Monad.{lock_callback, unlock_callback, unlock_data, delete_socket}
use simpwire.TcpNodePrivate.Contracts.{Ends, Holds, Ends-bind, Ends-mono}
use simpwire.TcpNodePrivate.Locks.{Ends-lock_callback}
use simpwire.TcpNodePrivate.Ownership.{Except, Owned-Except}
use simpwire.TcpNodePrivate.Sections.{Sect, Sect-data, Sect-callback, Sect-Frame}
use simpwire.TcpNodePrivate.Safety.Loose.{Same, Same-trans, Same-Frame, Loose, Loose-Frame}
use simpwire.TcpNodePrivate.ConnectThread.{connect_failed}
use simpwire.TcpNodePrivate.Safety.ConnectLoop.{report_connect_error-Frame}

module _ {I : ISocket} where
  deleted :
      {d c : Bool} {n l a k : ℕ} (m : Store I) (s : State I)
      → Sect d c n l s
      → Loose a k s
      → Except a s.store m
      → Sect d c n l (record s { store = m })
  deleted {a} {k} m s h free x = record {
    data_lock = h.data_lock;
    callback_lock = h.callback_lock;
    counted = h.counted;
    listener = h.listener;
    core = record {
      listener_lives = x.keeps s.listener (λ e. free.not_listener (sym e)) h.core.listener_lives;
      listener_below = omega (arith, h.core.listener_below, x.grows);
      owned =
          Owned-Except s.store m s.listener s.connection_counter a k s.peers x free.unshared
            h.core.owned;
      pending = h.core.pending;
    };
  }

  -- A socket that could not be connected is deleted.
  deleted-Sect :
      {d c : Bool} {n l a k : ℕ} (s : State I)
      → Sect d c n l s
      → Loose a k s
      → Ends (λ _ t. Sect d c n l t × Same s t) (delete_socket a s)
  unfolding delete_socket delete_object
  deleted-Sect {a} s h free = elim (Option-cases (s.store.cell a)) [
    | inl e ↦ absurd (free.lives e)
    | inr (o, e) ↦ record {
      holds =
          rw (Holds, delete_socket, delete_object, e)
            (
              deleted _ s h free
                  (record { keeps = λ b away live. ground arith; grows = omega arith }),
              record { queue = refl; thread = refl },
            );
    }
  ]

  Loose-callback :
      {a k : ℕ} {s : State I} (c : Bool)
      → Loose a k s
      → Loose a k (record s { callback_access = c })
  Loose-callback c h = record {
    lives = h.lives;
    below = h.below;
    not_listener = h.not_listener;
    unshared = h.unshared;
  }

  pub unlock_callback-Same :
      {d : Bool} {n l : ℕ} (s : State I)
      → Sect d true n l s
      → Ends (λ _ t. Sect d false n l t × Same s t) (unlock_callback s)
  unfolding unlock_callback
  unlock_callback-Same s h = record {
    holds =
        rw (h.callback_lock, unlock_callback)
          (Sect-callback false h, record { queue = refl; thread = refl });
  }

  pub lock_callback-Same :
      {d : Bool} {n l : ℕ} (s : State I)
      → Sect d false n l s
      → Ends (λ _ t. Sect d true n l t × Same s t) (lock_callback s)
  unfolding lock_callback
  lock_callback-Same s h = record {
    holds =
        rw (h.callback_lock, lock_callback)
          (Sect-callback true h, record { queue = refl; thread = refl });
  }

  pub unlock_data-Same :
      {c : Bool} {n l : ℕ} (s : State I)
      → Sect true c n l s
      → Ends (λ _ t. Sect false c n l t × Same s t) (unlock_data s)
  unfolding unlock_data
  unlock_data-Same s h = record {
    holds =
        rw (h.data_lock, unlock_data) (Sect-data false h, record { queue = refl; thread = refl });
  }

  kept_callback : (b : Bool) (s : State I) → Same s (record s { callback_access = b })
  kept_callback b s = record { queue = refl; thread = refl }

  pub connect_failed-Sect :
      {n l a k : ℕ} (ip : Text) (port : ℕ) (s : State I)
      → Sect false false n l s
      → Loose a k s
      → Ends (λ _ t. Sect false false n l t × Same s t) (connect_failed ip port a s)
  unfolding connect_failed
  connect_failed-Sect {a} ip port s h free = Ends-lock_callback _ s h.callback_lock (
      Ends-bind _ (report_connect_error-Frame s.callbacks.connect_error ip port a _ free.lives)
        λ _ t f.
          Ends-bind _
            (deleted-Sect t (Sect-Frame (Sect-callback true h) f)
              (Loose-Frame (Loose-callback true free) f))
            λ _ u (hu, same). Ends-mono (unlock_callback-Same u hu) λ _ v (hv, last). (
              hv,
              Same-trans (kept_callback true s) (Same-trans (Same-Frame f) (Same-trans same last)),
            ))
