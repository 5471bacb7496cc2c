-- ===== src/TcpNodePrivate/Sections.antt =====
-- Pieces of code between a lock and an unlock: which mutexes are held, how many connections have
-- been counted at most, and the invariant but for the mutexes.
use simpwire.Prelude.{ℕ, suc, Bool, true, false, ◌≤◌, ◌≡◌, ◌≢◌, none, refl, ◌∙◌, arith}
use simpwire.ISocket.{ISocket, Method}
use simpwire.Store.{Result, ok}
use simpwire.TcpNodePrivate.State.{State, PeerList}
use simpwire.TcpNodePrivate.Monad.{
  lock_data, unlock_data, lock_callback, unlock_callback, call_socket, get_socket,
}
use simpwire.TcpNodePrivate.Contracts.{Ends, Ends-mono, Frame, call_socket-Frame, get_socket_lem}
use simpwire.TcpNodePrivate.Invariant.{Core, Inv, Core-Frame}
use simpwire.TcpNodePrivate.Ownership.{Tracks, Owned-Tracks}

module _ {I : ISocket} where
  pub record Sect (d c : Bool) (n l : ℕ) (s : State I) : Type 0 where
    pub data_lock : s.data_access ≡ d
    pub callback_lock : s.callback_access ≡ c
    pub counted : s.connection_counter ≤ n
    pub listener : s.listener ≡ l
    pub core : Core s

  pub Sect-Frame :
      {d c : Bool} {n l : ℕ} {s t : State I} → Sect d c n l s → Frame s t → Sect d c n l t
  Sect-Frame h f = record {
    data_lock = f.data_access ∙ h.data_lock;
    callback_lock = f.callback_access ∙ h.callback_lock;
    counted = omega (arith, f.counter, h.counted);
    listener = f.listener ∙ h.listener;
    core = Core-Frame h.core f;
  }

  pub Sect-Inv : {s : State I} → Inv s → Sect false false s.connection_counter s.listener s
  Sect-Inv v = record {
    data_lock = v.data_free;
    callback_lock = v.callback_free;
    counted = omega arith;
    listener = refl;
    core = v.core;
  }

  pub Inv-Sect : {n l : ℕ} {s : State I} → Sect false false n l s → Inv s
  Inv-Sect h = record { data_free = h.data_lock; callback_free = h.callback_lock; core = h.core }

  -- A change of what the invariant does not speak of.
  pub Sect-change :
      {d c : Bool} {n l : ℕ} {s t : State I}
      → Sect d c n l s
      → Frame s t
      → Ends (λ _ u. Sect d c n l u) (ok (tt, t))
  Sect-change h f = record { holds = Sect-Frame h f }

  Core-locks :
      {s : State I} (d c : Bool) → Core s → Core (record s { data_access = d; callback_access = c })
  Core-locks d c h = record {
    listener_lives = h.listener_lives;
    listener_below = h.listener_below;
    owned = h.owned;
    pending = h.pending;
  }

  pub Sect-data :
      {d c : Bool} {n l : ℕ} {s : State I} (e : Bool)
      → Sect d c n l s
      → Sect e c n l (record s { data_access = e })
  Sect-data {s} e h = record {
    data_lock = refl;
    callback_lock = h.callback_lock;
    counted = h.counted;
    listener = h.listener;
    core = Core-locks e s.callback_access h.core;
  }

  pub Sect-callback :
      {d c : Bool} {n l : ℕ} {s : State I} (e : Bool)
      → Sect d c n l s
      → Sect d e n l (record s { callback_access = e })
  Sect-callback {s} e h = record {
    data_lock = h.data_lock;
    callback_lock = refl;
    counted = h.counted;
    listener = h.listener;
    core = Core-locks s.data_access e h.core;
  }

  pub lock_data-Sect :
      {c : Bool} {n l : ℕ} {s : State I}
      → Sect false c n l s
      → Ends (λ _ t. Sect true c n l t) (lock_data s)
  unfolding lock_data
  lock_data-Sect h = record { holds = rw (h.data_lock, lock_data) (Sect-data true h) }

  pub unlock_data-Sect :
      {c : Bool} {n l : ℕ} {s : State I}
      → Sect true c n l s
      → Ends (λ _ t. Sect false c n l t) (unlock_data s)
  unfolding unlock_data
  unlock_data-Sect h = record { holds = rw (h.data_lock, unlock_data) (Sect-data false h) }

  pub lock_callback-Sect :
      {d : Bool} {n l : ℕ} {s : State I}
      → Sect d false n l s
      → Ends (λ _ t. Sect d true n l t) (lock_callback s)
  unfolding lock_callback
  lock_callback-Sect h = record {
    holds = rw (h.callback_lock, lock_callback) (Sect-callback true h);
  }

  pub unlock_callback-Sect :
      {d : Bool} {n l : ℕ} {s : State I}
      → Sect d true n l s
      → Ends (λ _ t. Sect d false n l t) (unlock_callback s)
  unfolding unlock_callback
  unlock_callback-Sect h = record {
    holds = rw (h.callback_lock, unlock_callback) (Sect-callback false h);
  }

  -- A step with the frame of its state keeps a section's facts.
  pub Ends-Sect :
      {A : Type 0} {d c : Bool} {n l : ℕ} {s : State I} {r : Result (A × State I)}
      → Sect d c n l s
      → Ends (λ _ t. Frame s t) r
      → Ends (λ _ t. Sect d c n l t) r
  Ends-Sect h e = Ends-mono e λ a t f. Sect-Frame h f

  pub Sect-at : {d c : Bool} {n l k : ℕ} {s : State I} → l ≡ k → Sect d c n l s → Sect d c n k s
  Sect-at {s} e h = record {
    data_lock = h.data_lock;
    callback_lock = h.callback_lock;
    counted = h.counted;
    listener = h.listener ∙ e;
    core = h.core;
  }

  pub Sect-later : {d c : Bool} {n l : ℕ} {s : State I} → Sect d c n l s → Sect d c (suc n) l s
  Sect-later h = record {
    data_lock = h.data_lock;
    callback_lock = h.callback_lock;
    counted = omega (arith, h.counted);
    listener = h.listener;
    core = h.core;
  }

  pub Sect-listener_lives :
      {d c : Bool} {n l : ℕ} {s : State I} → Sect d c n l s → s.store.cell l ≢ none
  Sect-listener_lives h = rw (← h.listener) h.core.listener_lives

  -- A method of the listener.
  pub call_listener-Sect :
      {A : Type 0} {d c : Bool} {n l : ℕ} {s : State I} (f : Method I.Sock I.World A)
      → Sect d c n l s
      → Ends (λ _ t. Sect d c n l t) (call_socket f l s)
  call_listener-Sect {l} {s} f h = Ends-Sect h (call_socket-Frame f l s (Sect-listener_lives h))

  pub get_listener-Sect :
      {A : Type 0} {d c : Bool} {n l : ℕ} {s : State I} (f : I.Sock → A)
      → Sect d c n l s
      → Ends (λ _ t. Sect d c n l t) (get_socket f l s)
  get_listener-Sect {l} {s} f h =
      Ends-mono (get_socket_lem f l s (Sect-listener_lives h)) λ a t e. rw e h

  -- The map is replaced by another version of itself.
  pub Sect-Tracks :
      {d c : Bool} {n l : ℕ} {s : State I} (ps : PeerList)
      → Sect d c n l s
      → Tracks s.peers ps
      → Sect d c n l (record s { peers = ps })
  Sect-Tracks {s} ps h t = record {
    data_lock = h.data_lock;
    callback_lock = h.callback_lock;
    counted = h.counted;
    listener = h.listener;
    core = record {
      listener_lives = h.core.listener_lives;
      listener_below = h.core.listener_below;
      owned = Owned-Tracks s.store s.listener s.connection_counter s.peers ps t h.core.owned;
      pending = h.core.pending;
    };
  }
