-- ===== src/TcpNodePrivate/Safety/Loose.antt =====
-- A socket that nobody owns yet, and how it becomes a peer's.
use simpwire.Prelude.{
  ℕ, suc, ◌+◌, ◌<◌, ◌≤◌, ◌^◌, Bool, true, false, ◌≡◌, ◌≢◌, refl, ◌∙◌, none, some, arith,
}
use simpwire.ISocket.{ISocket}
use simpwire.Store.{new_object}
use simpwire.PeerPrivate.{PeerPrivate, set_identity, set_socket, set_valid, new_peer_private}
use simpwire.TcpNodePrivate.State.{State}
use simpwire.TcpNodePrivate.Monad.{adopt_socket}
use simpwire.TcpNodePrivate.Map.{insert}
use simpwire.TcpNodePrivate.Contracts.{Ends, Ends-bind, Frame, Frame-trans, call_socket-Frame}
use simpwire.TcpNodePrivate.Invariant.{Unshared, Owned-Extends}
use simpwire.TcpNodePrivate.Ownership.{Unshared-find, Unshared-above}
use simpwire.TcpNodePrivate.Sections.{Sect}
use simpwire.TcpNodePrivate.Accept.{make_peer, next_id, wrap64}

module _ {I : ISocket} where
  -- The object `a` exists, nobody owns it, and the number `k` is not in use.
  pub record Loose (a k : ℕ) (s : State I) : Type 0 where
    pub lives : s.store.cell a ≢ none
    pub below : a < s.store.next
    pub not_listener : a ≢ s.listener
    pub unshared : Unshared k (some a) s.peers

  pub Loose-Frame : {a k : ℕ} {s t : State I} → Loose a k s → Frame s t → Loose a k t
  Loose-Frame {a} {k} {s} {t} h f = record {
    lives = f.store.keeps a h.lives;
    below = omega (arith, h.below, f.store.grows);
    not_listener = λ e. h.not_listener (e ∙ f.listener);
    unshared = rw f.peers h.unshared;
  }

  -- The queue of the connect thread and its position are the same.
  pub record Same (s t : State I) : Type 0 where
    pub queue : t.potential_peers ≡ s.potential_peers
    pub thread : t.connect_thread ≡ s.connect_thread

  pub Same-trans : {s t u : State I} → Same s t → Same t u → Same s u
  Same-trans f g = record { queue = g.queue ∙ f.queue; thread = g.thread ∙ f.thread }

  pub Same-Frame : {s t : State I} → Frame s t → Same s t
  Same-Frame f = record { queue = f.queue; thread = f.thread }

  adopted : I.Sock → State I → State I
  adopted o s = record s { store = (new_object o s.store).1 }

  adopted-Frame : (o : I.Sock) (s : State I) → Frame s (adopted o s)
  unfolding adopted new_object
  adopted-Frame o s = ground arith

  -- A new object is nobody's.
  pub adopt_socket-Loose :
      {d c : Bool} {n l : ℕ} (o : I.Sock) (s : State I)
      → Sect d c n l s
      → Ends (λ a t. Frame s t × Loose a (suc t.connection_counter) t) (adopt_socket o s)
  unfolding adopt_socket adopted
  adopt_socket-Loose o s h = record {
    holds = (
      adopted-Frame o s,
      record {
        lives = ground arith;
        below = ground arith;
        not_listener = omega (arith, h.core.listener_below);
        unshared =
            Unshared-above s.store s.listener s.connection_counter _ s.store.next s.peers
              h.core.owned (omega arith) (omega arith);
      },
    );
  }

  -- The counter goes on by one, while it has not run through its 64 bits.
  pub next_id-Sect :
      {d c : Bool} {n l a : ℕ} (s : State I)
      → Sect d c n l s
      → Loose a (suc s.connection_counter) s
      → s.connection_counter + 1 < 2 ^ 64
      → Ends
          (λ k t.
            Sect d c (suc n) l t × Loose a k t × (t.connection_counter ≡ k) × (1 ≤ k) × Same s t)
          (next_id s)
  unfolding next_id
  next_id-Sect s h free fits =
      let e : wrap64 (s.connection_counter + 1) ≡ suc s.connection_counter = omega arith in
      record {
        holds = (
          record {
            data_lock = h.data_lock;
            callback_lock = h.callback_lock;
            counted = omega (arith, e, h.counted);
            listener = h.listener;
            core = record {
              listener_lives = h.core.listener_lives;
              listener_below = h.core.listener_below;
              owned =
                  Owned-Extends _ s.connection_counter _ s.peers
                    (record { keeps = λ b live. live; grows = omega arith }) (omega (arith, e))
                    h.core.owned;
              pending = h.core.pending;
            };
          },
          record {
            lives = free.lives;
            below = free.below;
            not_listener = free.not_listener;
            unshared = rw e free.unshared;
          },
          refl,
          omega (arith, e),
          record { queue = refl; thread = refl },
        );
      }

  pub make_peer-Frame :
      (count sock : ℕ) (s : State I)
      → s.store.cell sock ≢ none
      → Ends
          (λ p t.
            Frame s t
            × (p.connection_id ≡ count)
            × (p.socket ≡ some sock)
            × (p.valid ≡ true)
            × (p.to_be_deleted ≡ false))
          (make_peer count sock s)
  unfolding make_peer set_identity set_socket set_valid new_peer_private
  make_peer-Frame count sock s live =
      Ends-bind _ (call_socket-Frame I.peer_ip_address sock s live) λ ip t f.
        Ends-bind _ (call_socket-Frame I.peer_port sock t (f.store.keeps sock live)) λ port u g.
          Ends-bind _
            (call_socket-Frame I.peer_name sock u (g.store.keeps sock (f.store.keeps sock live)))
            λ name v k. record { holds = (Frame-trans (Frame-trans f g) k, refl, refl, refl, refl) }

  -- A peer with a socket that nobody owns joins the map.
  pub insert-Sect :
      {d c : Bool} {n l a : ℕ} (k : ℕ) (p : PeerPrivate) (s : State I)
      → Sect d c n l s
      → Loose a k s
      → s.connection_counter ≡ k
      → 1 ≤ k
      → p.connection_id ≡ k
      → p.socket ≡ some a
      → p.valid ≡ true
      → Sect d c n l (record s { peers = insert k p s.peers })
  unfolding insert
  insert-Sect {a} k p s h free count pos id sock valid = record {
    data_lock = h.data_lock;
    callback_lock = h.callback_lock;
    counted = h.counted;
    listener = h.listener;
    core = record {
      listener_lives = h.core.listener_lives;
      listener_below = h.core.listener_below;
      owned =
          rw (Unshared-find k (some a) s.peers free.unshared, insert)
            (
              record {
                own = rw sock (free.lives, free.below, free.not_listener);
                keyed = id;
                positive = pos;
                counted = omega arith;
                valid = valid;
              },
              rw sock free.unshared,
              h.core.owned,
            );
      pending = h.core.pending;
    };
  }
