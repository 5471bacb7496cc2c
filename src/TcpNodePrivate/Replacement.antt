-- ===== src/TcpNodePrivate/Replacement.antt =====
-- A user's own listener in place of the node's.
use simpwire.Prelude.{
  ℕ, Bool, true, false, ◌≡◌, ◌≢◌, ◌<◌, refl, ◌∙◌, ap, Option, none, some, [], ◌∷◌, arith, All,
  Option-cases, inl, inr,
}
use simpwire.ISocket.{ISocket}
use simpwire.Store.{Store, delete_object}
use simpwire.TcpNodePrivate.State.{State, PeerList}
use simpwire.TcpNodePrivate.Monad.{modify, gets, when, ◌>>=◌, ◌>>◌, unlock_data, delete_socket}
use simpwire.TcpNodePrivate.Settings.{set_listener}
use simpwire.TcpNodePrivate.Contracts.{
  Ends, Holds, Ends-bind, Ends-when, Ends-mono, call_socket-Frame, Frame,
}
use simpwire.TcpNodePrivate.Locks.{Ends-lock_data}
use simpwire.TcpNodePrivate.Invariant.{Inv, Core, Core-Frame, Owned, HasSocket}
use simpwire.TcpNodePrivate.Ownership.{Except}

-- No peer uses that socket object.
abbrev pub Unowned : ℕ → PeerList → Type 0
Unowned a = All λ e. e.1.socket ≢ some a

module _ {I : ISocket} where
  HasSocket-moved :
      {m n : Store I} (l a : ℕ) (sock : Option ℕ)
      → Except l m n
      → sock ≢ some a
      → HasSocket m l sock
      → HasSocket n a sock
  HasSocket-moved l a none x free h = h
  HasSocket-moved l a (some b) x free h =
      (x.keeps b h.2 h.0, omega (arith, x.grows, h.1), λ e. free (ap some e))

  -- The peers keep their sockets while the listener `l` is deleted and `a` takes its place.
  Owned-moved :
      {m n : Store I} (l a c : ℕ) (ps : PeerList)
      → Except l m n
      → Unowned a ps
      → Owned m l c ps
      → Owned n a c ps
  Owned-moved l a c [] x free o = tt
  Owned-moved l a c ((k, p) ∷ ps) x free o = (
    record {
      own = HasSocket-moved l a p.socket x free.0 o.0.own;
      keyed = o.0.keyed;
      positive = o.0.positive;
      counted = o.0.counted;
      valid = o.0.valid;
    },
    o.1,
    Owned-moved l a c ps x free.1 o.2,
  )

  -- From `s` to `t` the listener is deleted, under the mutex of the data, and nothing else changes.
  record Deleted (s t : State I) : Type 0 where
    data_lock : t.data_access ≡ true
    callback_lock : t.callback_access ≡ false
    peers : t.peers ≡ s.peers
    counter : t.connection_counter ≡ s.connection_counter
    queue : t.potential_peers ≡ s.potential_peers
    thread : t.connect_thread ≡ s.connect_thread
    others : Except s.listener s.store t.store
    gone : t.store.cell s.listener ≡ none

  delete-Deleted :
      (s u : State I)
      → Inv s
      → Frame (record s { data_access = true }) u
      → Ends (λ _ t. Deleted s t) (delete_socket s.listener u)
  unfolding delete_socket delete_object
  delete-Deleted s u h f = elim (Option-cases (u.store.cell s.listener)) [
    | inl e ↦ absurd (f.store.keeps s.listener h.core.listener_lives e)
    | inr (o, e) ↦ record {
      holds =
          rw (Holds, delete_socket, delete_object, e)
            (record {
              data_lock = f.data_access;
              callback_lock = f.callback_access ∙ h.callback_free;
              peers = f.peers;
              counter = f.counter;
              queue = f.queue;
              thread = f.thread;
              others = record {
                keeps = λ b away live. ground (arith, f.store.keeps b live);
                grows = f.store.grows;
              };
              gone = ground arith;
            });
    }
  ]

  -- What is known of the state with the new listener.
  record Replaced (a : ℕ) (d : Bool) (s t : State I) : Type 0 where
    data_lock : t.data_access ≡ d
    callback_lock : t.callback_access ≡ false
    core : Core t
    listener : t.listener ≡ a
    peers : t.peers ≡ s.peers
    gone : t.store.cell s.listener ≡ none

  Deleted-Replaced :
      (a : ℕ) (s t : State I)
      → Inv s
      → s.store.cell a ≢ none
      → a < s.store.next
      → a ≢ s.listener
      → Unowned a s.peers
      → Deleted s t
      → Replaced a true s (record t { listener = a })
  Deleted-Replaced a s t h lives below away free x = record {
    data_lock = x.data_lock;
    callback_lock = x.callback_lock;
    core = record {
      listener_lives = x.others.keeps a away lives;
      listener_below = omega (arith, x.others.grows);
      owned =
          rw (x.peers, x.counter)
            (Owned-moved s.listener a s.connection_counter s.peers x.others free h.core.owned);
      pending = rw (x.thread, x.queue) h.core.pending;
    };
    listener = refl;
    peers = x.peers;
    gone = x.gone;
  }

  -- The rest of the method: the listen thread is told if it is to open the new listener.
  announce-Replaced :
      (a : ℕ) (s t : State I)
      → Replaced a true s t
      → Ends
          (λ _ u. Replaced a false s u)
          ((gets (λ v. v.listening_enabled) >>= λ enabled.
              when enabled (modify λ v. record v { changing_listener = true }) >> unlock_data)
            t)
  unfolding unlock_data
  announce-Replaced a s t h =
      Ends-bind {P = λ _ u. Replaced a true s u} _
        (Ends-when t.listening_enabled (modify λ v. record v { changing_listener = true }) t
          (λ _. record {
            holds = record {
              data_lock = h.data_lock;
              callback_lock = h.callback_lock;
              core = Core-Frame {t = record t { changing_listener = true }} h.core (ground arith);
              listener = h.listener;
              peers = h.peers;
              gone = h.gone;
            };
          })
          λ _. h)
        λ _ u hu. record {
          holds =
              rw (hu.data_lock, unlock_data)
                (record {
                  data_lock = refl;
                  callback_lock = hu.callback_lock;
                  core = record {
                    listener_lives = hu.core.listener_lives;
                    listener_below = hu.core.listener_below;
                    owned = hu.core.owned;
                    pending = hu.core.pending;
                  };
                  listener = hu.listener;
                  peers = hu.peers;
                  gone = hu.gone;
                });
        }

  -- In a node with the invariant, `setListener` with a socket object that exists, is not the node's
  -- listener and belongs to no peer: it ends without a fault, the invariant holds, the listener is
  -- that object, the old listener is deleted, and the peers are as they were.
  pub set_listener-Inv :
      (a : ℕ) (s : State I)
      → Inv s
      → s.store.cell a ≢ none
      → a < s.store.next
      → a ≢ s.listener
      → Unowned a s.peers
      → Ends
          (λ _ t. Inv t × (t.listener ≡ a) × (t.store.cell s.listener ≡ none) × (t.peers ≡ s.peers))
          (set_listener (some a) s)
  unfolding set_listener
  set_listener-Inv a s h lives below away free = Ends-lock_data _ s h.data_free (
      Ends-bind _ (call_socket-Frame I.close s.listener _ h.core.listener_lives) λ _ u f.
        Ends-bind _ (delete-Deleted s u h f) λ _ t x.
          Ends-mono
            (announce-Replaced a s (record t { listener = a })
              (Deleted-Replaced a s t h lives below away free x))
            λ _ v r. (
              record { data_free = r.data_lock; callback_free = r.callback_lock; core = r.core },
              r.listener,
              r.gone,
              r.peers,
            ))
