-- ===== src/TcpNodePrivate/Removal.antt =====
-- What the user hears of a removed peer.
use simpwire.Prelude.{
  ℕ, Bool, true, false, ◌≡◌, refl, ap, sym, subst, none, some, Option, List, [], ◌∷◌, ◌++◌, arith,
}
use simpwire.ISocket.{ISocket}
use simpwire.PeerPrivate.{
  PeerPrivate, DisconnectType, peer_disconnected_themself, peer_was_disconnected,
  peer_was_disconnected_due_to_error,
}
use simpwire.TcpNodePrivate.State.{
  State, Callbacks, Callback, Arguments, Event, of_peer, of_faulty, PeerList,
}
use simpwire.TcpNodePrivate.Monad.{unlock_callback, lock_callback, invoke}
use simpwire.TcpNodePrivate.Map.{erase}
use simpwire.TcpNodePrivate.Notify.{notify}
use simpwire.TcpNodePrivate.Remove.{
  next_scheduled, notify_removed, destroy_peer_socket, remove_peer, delete_next, delete_found,
}
use simpwire.TcpNodePrivate.Contracts.{Holds, Ends, Ends-bind, Ends-mono}
use simpwire.TcpNodePrivate.Locks.{Ends-lock_callback, Ends-unlock_callback}
use simpwire.TcpNodePrivate.Invariant.{Inv, HasSocket}
use simpwire.TcpNodePrivate.Ownership.{next_scheduled-Sound}
use simpwire.TcpNodePrivate.Safety.Remove.{destroy_socket-Except}

-- A call of a function under the mutex of the data alone, if there is a function.
abbrev pub heard : Callback → Arguments → List Event
heard none args = []
heard (some f) args =
    record { function = f; arguments = args; data_locked = true; callback_locked = false } ∷ []

abbrev pub callback_for : DisconnectType → Callbacks → Callback
callback_for peer_disconnected_themself c = c.peer_disconnected
callback_for peer_was_disconnected c = c.closed_connection
callback_for peer_was_disconnected_due_to_error c = c.faulty_connection_closed

abbrev pub arguments_for : DisconnectType → PeerPrivate → Arguments
arguments_for peer_disconnected_themself p = of_peer p
arguments_for peer_was_disconnected p = of_peer p
arguments_for peer_was_disconnected_due_to_error p = of_faulty p p.errmsg

-- What is called for a peer that is removed.
abbrev pub told : Callbacks → PeerPrivate → List Event
told c p = heard (callback_for p.disconn c) (arguments_for p.disconn p)

module _ {I : ISocket} where
  -- The mutex of the data is held in `t`, that of the callbacks as `b` says, and the rest is as
  -- given.
  pub record After (c : Callbacks) (es : List Event) (ps : PeerList) (b : Bool) (t : State I)
      : Type 0 where
    pub data_lock : t.data_access ≡ true
    pub callback_lock : t.callback_access ≡ b
    pub callbacks : t.callbacks ≡ c
    pub events : t.events ≡ es
    pub peers : t.peers ≡ ps

  pub notify-After :
      {c : Callbacks} {es : List Event} {ps : PeerList} (f : Callback) (args : Arguments)
      (s : State I)
      → After c es ps true s
      → Ends (λ _ t. After c (heard f args ++ es) ps true t) (notify f args s)
  unfolding notify invoke lock_callback
  notify-After none args s h = record { holds = h }
  notify-After (some f) args s h = Ends-unlock_callback _ s h.callback_lock (record {
    holds = record {
      data_lock = h.data_lock;
      callback_lock = refl;
      callbacks = h.callbacks;
      events = ground (arith, h.data_lock, h.events);
      peers = h.peers;
    };
  })

  notify_removed-After :
      {c : Callbacks} {es : List Event} {ps : PeerList} (p : PeerPrivate) (s : State I)
      → After c es ps true s
      → Ends (λ _ t. After c (told s.callbacks p ++ es) ps true t) (notify_removed p s)
  unfolding notify_removed
  notify_removed-After {c} {es} {ps} p s h = go p.disconn
    where
      go :
          (dt : DisconnectType)
          → Ends
              (λ _ t. After c (told s.callbacks (record p { disconn = dt }) ++ es) ps true t)
              (notify_removed (record p { disconn = dt }) s)
      go peer_disconnected_themself = notify-After _ _ s h
      go peer_was_disconnected = notify-After _ _ s h
      go peer_was_disconnected_due_to_error = notify-After _ _ s h

  destroy-After :
      (p : PeerPrivate) (s : State I) (sock : Option ℕ)
      → p.socket ≡ sock
      → HasSocket s.store s.listener sock
      → s.data_access ≡ true
      → s.callback_access ≡ false
      → Ends (λ _ t. After s.callbacks s.events s.peers false t) (destroy_peer_socket p s)
  unfolding destroy_peer_socket
  destroy-After p s none is own d e = absurd own
  destroy-After p s (some a) is own d e =
      let (m, done, gone, rest) = destroy_socket-Except p a s.store is own.0 in
      record {
        holds =
            rw (Holds, destroy_peer_socket, done)
              (record {
                data_lock = d;
                callback_lock = e;
                callbacks = refl;
                events = refl;
                peers = refl;
              });
      }

  pub unlock-After :
      {c : Callbacks} {es : List Event} {ps : PeerList} (t : State I)
      → After c es ps true t
      → Ends (λ _ u. After c es ps false u) (unlock_callback t)
  unfolding unlock_callback
  unlock-After t h = record {
    holds =
        rw (h.callback_lock, unlock_callback)
          (record {
            data_lock = h.data_lock;
            callback_lock = refl;
            callbacks = h.callbacks;
            events = h.events;
            peers = h.peers;
          });
  }

  remove_peer-After :
      (k : ℕ) (p : PeerPrivate) (s : State I)
      → HasSocket s.store s.listener p.socket
      → s.data_access ≡ true
      → s.callback_access ≡ false
      → Ends
          (λ _ t. After s.callbacks (told s.callbacks p ++ s.events) (erase k s.peers) false t)
          (remove_peer k p s)
  unfolding remove_peer
  remove_peer-After k p s own d e = Ends-bind _ (destroy-After p s p.socket refl own d e) λ _ t h.
      Ends-lock_callback _ (record t { peers = erase k t.peers }) h.callback_lock
        (Ends-bind _
          (notify_removed-After {c = s.callbacks} {es = s.events} {ps = erase k s.peers} p _
            (record {
              data_lock = h.data_lock;
              callback_lock = refl;
              callbacks = h.callbacks;
              events = h.events;
              peers = ap (erase k) h.peers;
            }))
          λ _ u hu. unlock-After u (
            subst (λ c. After s.callbacks (told c p ++ s.events) (erase k s.peers) true u)
              h.callbacks hu))

  delete_found-After :
      {k : ℕ} {p : PeerPrivate} (r : Option (ℕ × PeerPrivate)) (s : State I)
      → r ≡ some (k, p)
      → HasSocket s.store s.listener p.socket
      → s.data_access ≡ true
      → s.callback_access ≡ false
      → Ends
          (λ _ t. After s.callbacks (told s.callbacks p ++ s.events) (erase k s.peers) false t)
          (delete_found r s)
  unfolding delete_found
  delete_found-After {k} {p} r s is own d e =
      subst
        (λ q.
          Ends (λ _ t. After s.callbacks (told s.callbacks p ++ s.events) (erase k s.peers) false t)
            (delete_found q s))
        (sym is) (remove_peer-After k p s own d e)

  -- In a node with the invariant, while the listen thread holds the mutex of the data, and where
  -- `k` and `p` are the first peer that is to be deleted: `delete_next` ends without a fault. The
  -- user's function for the kind of the disconnection was called with the peer (and with its error
  -- message, if it is an error), once, while the thread held the mutex of the data and not
  -- that of the callbacks; none was called if none is set. The peer is out of the map.
  pub delete_next-events :
      (k : ℕ) (p : PeerPrivate) (s : State I)
      → Inv s
      → next_scheduled s.peers ≡ some (k, p)
      → Ends
          (λ _ t. (t.events ≡ told s.callbacks p ++ s.events) × (t.peers ≡ erase k s.peers))
          (delete_next (record s { data_access = true }))
  unfolding delete_next
  delete_next-events k p s h e =
      let sound =
        next_scheduled-Sound s.store s.listener s.connection_counter k p s.peers e h.core.owned in
      Ends-mono
        (delete_found-After (next_scheduled s.peers) (record s { data_access = true }) e sound.own
          refl h.callback_free)
        λ _ t ht. (ht.events, ht.peers)
