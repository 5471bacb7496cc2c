-- ===== src/TcpNodePrivate/Queued.antt =====
-- What becomes of a buffer that a user sends to a peer of the node.
use simpwire.Prelude.{
  if◌then◌else◌, ℕ, Bool, true, false, not, ◌≡◌, refl, ◌∙◌, ap, subst, some, [], ◌∷◌, ◌++◌, arith,
}
use simpwire.ISocket.{ISocket, Bytes}
use simpwire.Peer.{Peer, id}
use simpwire.PeerPrivate.{PeerPrivate}
use simpwire.TcpNodePrivate.State.{State, PeerList, ThreadPc, woken}
use simpwire.TcpNodePrivate.Monad.{when, unlock_data, notify_send, ◌>>◌}
use simpwire.TcpNodePrivate.Map.{find}
use simpwire.TcpNodePrivate.Contracts.{Ends, Ends-bind, Ends-if, Ends-when}
use simpwire.TcpNodePrivate.Locks.{Ends-lock_data, Ends-unlock_data}
use simpwire.TcpNodePrivate.Invariant.{Inv}
use simpwire.TcpNodePrivate.Ownership.{find-Sound}
use simpwire.TcpNodePrivate.Requests.{
  peer_exists, start_send_thread, send_refused, send_queued, send_data,
}

known_peer :
    (k : ℕ) (p : PeerPrivate) (ps : PeerList)
    → find k ps ≡ some p
    → p.valid ≡ true
    → peer_exists k ps ≡ true
unfolding peer_exists
known_peer k p ps e v = ground (arith, e, v)

module _ {I : ISocket} where
  -- From `s` to `t` a buffer for the peer `k` was put behind the others. The send thread is marked
  -- as running: if it was not, it is started and stands at the head of its loop, and if it was, it
  -- is where it was, or awake if it slept.
  -- No function of the user was called, and the map and the
  -- sockets are as they were.
  pub record Queued (k : ℕ) (dat : Bytes) (s t : State I) : Type 0 where
    pub queue : t.data_to_send ≡ s.data_to_send ++ (k, dat) ∷ []
    pub running : t.send_thread_running ≡ true
    pub thread :
        t.send_thread ≡ (if s.send_thread_running then woken s.send_thread else ThreadPc.at_top)
    pub quiet : t.events ≡ s.events
    pub peers : t.peers ≡ s.peers
    pub store : t.store ≡ s.store

  -- What starting the send thread leaves alone.
  record Started (s t : State I) : Type 0 where
    locked : t.data_access ≡ true
    running : t.send_thread_running ≡ true
    thread : t.send_thread ≡ (if s.send_thread_running then s.send_thread else ThreadPc.at_top)
    queue : t.data_to_send ≡ s.data_to_send
    quiet : t.events ≡ s.events
    peers : t.peers ≡ s.peers
    store : t.store ≡ s.store

  start-Started :
      (s : State I)
      → s.data_access ≡ true
      → Ends (λ _ t. Started s t) (when (not s.send_thread_running) start_send_thread s)
  unfolding start_send_thread
  start-Started s h =
      Ends-when (not s.send_thread_running) start_send_thread s
        (λ off. record {
          holds = record {
            locked = h;
            running = refl;
            thread = ground (arith, off);
            queue = refl;
            quiet = refl;
            peers = refl;
            store = refl;
          };
        })
        λ e. record {
          locked = h;
          running = ground (arith, e);
          thread = ground (arith, e);
          queue = refl;
          quiet = refl;
          peers = refl;
          store = refl;
        }

  -- What the notification at the end makes of a state.
  abbrev notified : State I → State I
  notified t = record t { send_thread = woken t.send_thread }

  started-woken :
      (s : State I) (pc : ThreadPc)
      → pc ≡ (if s.send_thread_running then s.send_thread else ThreadPc.at_top)
      → woken pc ≡ (if s.send_thread_running then woken s.send_thread else ThreadPc.at_top)
  started-woken s pc e = ground (arith, e)

  send_queued-Queued :
      (pr : Peer) (dat : Bytes) (s : State I)
      → s.data_access ≡ true
      → Ends
          (λ _ t. (t.data_access ≡ true) × Queued (id pr) dat s (notified t))
          (send_queued pr dat s)
  unfolding send_queued
  send_queued-Queued pr dat s h = Ends-bind _ (start-Started s h) λ _ t ht. record {
    holds = (
      ht.locked,
      record {
        queue = ap (λ q. q ++ (id pr, dat) ∷ []) ht.queue;
        running = ht.running;
        thread = started-woken s _ ht.thread;
        quiet = ht.quiet;
        peers = ht.peers;
        store = ht.store;
      },
    );
  }

  unlock-Queued :
      (k : ℕ) (dat : Bytes) (known : Bool) (s t : State I)
      → known ≡ true
      → t.data_access ≡ true
      → Queued k dat (record s { data_access = true }) (notified t)
      → Ends (λ _ u. Queued k dat s u) ((unlock_data >> when known notify_send) t)
  unfolding notify_send
  unlock-Queued k dat known s t e l q = Ends-unlock_data (when known notify_send) t l (
      rw e (record {
        holds = record {
          queue = q.queue;
          running = q.running;
          thread = q.thread;
          quiet = q.quiet;
          peers = q.peers;
          store = q.store;
        };
      }))

  -- A peer that the map has, by its own number.
  send_known-Queued :
      (pr : Peer) (dat : Bytes) (s : State I)
      → s.data_access ≡ false
      → peer_exists (id pr) s.peers ≡ true
      → Ends (λ _ t. Queued (id pr) dat s t) (send_data pr dat s)
  unfolding send_data
  send_known-Queued pr dat s free known = Ends-lock_data _ s free (
      Ends-bind
        {P = λ _ t.
          (t.data_access ≡ true)
          × Queued (id pr) dat (record s { data_access = true }) (notified t)}
        _
        (Ends-if (peer_exists (id pr) s.peers) (send_queued pr dat) (send_refused pr) _
          (λ _. send_queued-Queued pr dat _ refl) λ unknown. cc)
        λ _ t (l, q). unlock-Queued (id pr) dat (peer_exists (id pr) s.peers) s t known l q)

  -- In a node with the invariant, `sendData` to the peer under a number of the map: it ends
  -- without a fault, the buffer stands behind those that were queued before, under that number,
  -- the send thread is marked as running: started, if it did not run, and awake otherwise unless it
  -- is finished. No function of the user was called, and the map and
  -- the sockets are as they were.
  pub send_data-Queued :
      (k : ℕ) (p : PeerPrivate) (dat : Bytes) (s : State I)
      → Inv s
      → find k s.peers ≡ some p
      → Ends (λ _ t. Queued k dat s t) (send_data (some p) dat s)
  unfolding id
  send_data-Queued k p dat s h found =
      let sound =
        find-Sound s.store s.listener s.connection_counter k p s.peers h.core.owned found in
      subst (λ j. Ends (λ _ t. Queued j dat s t) (send_data (some p) dat s)) sound.keyed
        (send_known-Queued (some p) dat s h.data_free (
          known_peer (id (some p)) p s.peers (ap (λ j. find j s.peers) sound.keyed ∙ found)
            sound.valid))
