-- ===== src/TcpNodePrivate/Invariant.antt =====
-- What holds of a node between the turns of its threads and the calls of its user: no mutex is
-- held, and every peer in the map is valid, stands under its own id, and owns a socket object that
-- exists, is not the listener and belongs to no other peer.
use simpwire.Prelude.{
  ℕ, ◌≤◌, ◌<◌, ◌≡◌, ◌≢◌, true, false, Option, none, some, List, [], ◌∷◌, Text, arith,
}
use simpwire.ISocket.{ISocket}
use simpwire.Store.{Store}
use simpwire.PeerPrivate.{PeerPrivate}
use simpwire.TcpNodePrivate.State.{State, PeerList, ConnectPc}
use simpwire.TcpNodePrivate.Contracts.{Extends, Frame}

module _ {I : ISocket} where
  abbrev pub HasSocket : Store I → ℕ → Option ℕ → Type 0
  HasSocket m l none = ⊥
  HasSocket m l (some a) = (m.cell a ≢ none) × (a < m.next) × (a ≢ l)

  -- A peer `p` under the key `k`, while `l` is the listener and `c` the number of connections.
  pub record Sound (m : Store I) (l c k : ℕ) (p : PeerPrivate) : Type 0 where
    pub own : HasSocket m l p.socket
    pub keyed : p.connection_id ≡ k
    pub positive : 1 ≤ k
    pub counted : k ≤ c
    pub valid : p.valid ≡ true

-- Neither the key nor the socket stands in the list.
abbrev pub Unshared : ℕ → Option ℕ → PeerList → Type 0
Unshared k sock [] = Unit {0}
Unshared k sock ((j, q) ∷ ps) = (j ≢ k) × (q.socket ≢ sock) × Unshared k sock ps

-- The connect thread pops only what is there.
abbrev pub Pending : ConnectPc → List (Text × ℕ) → Type 0
Pending (ConnectPc.trying n) [] = ⊥
Pending _ _ = Unit {0}

module _ {I : ISocket} where
  abbrev pub Owned : Store I → ℕ → ℕ → PeerList → Type 0
  Owned m l c [] = Unit {0}
  Owned m l c ((k, p) ∷ ps) = Sound m l c k p × Unshared k p.socket ps × Owned m l c ps

  -- The part that holds also while a mutex is held.
  pub record Core (s : State I) : Type 0 where
    pub listener_lives : s.store.cell s.listener ≢ none
    pub listener_below : s.listener < s.store.next
    pub owned : Owned s.store s.listener s.connection_counter s.peers
    pub pending : Pending s.connect_thread s.potential_peers

  pub record Inv (s : State I) : Type 0 where
    pub data_free : s.data_access ≡ false
    pub callback_free : s.callback_access ≡ false
    pub core : Core s

  pub HasSocket-Extends :
      {m n : Store I} (l : ℕ) (sock : Option ℕ)
      → Extends m n
      → HasSocket m l sock
      → HasSocket n l sock
  HasSocket-Extends l none e h = h
  HasSocket-Extends l (some a) e h = (e.keeps a h.0, omega arith, h.2)

  pub Owned-Extends :
      {m n : Store I} (l c d : ℕ) (ps : PeerList)
      → Extends m n
      → c ≤ d
      → Owned m l c ps
      → Owned n l d ps
  Owned-Extends l c d [] e h o = tt
  Owned-Extends l c d ((k, p) ∷ ps) e h o = (
    record {
      own = HasSocket-Extends l p.socket e o.0.own;
      keyed = o.0.keyed;
      positive = o.0.positive;
      counted = omega arith;
      valid = o.0.valid;
    },
    o.1,
    Owned-Extends l c d ps e h o.2,
  )

  pub Core-Frame : {s t : State I} → Core s → Frame s t → Core t
  Core-Frame {s} {t} c f = record {
    listener_lives = rw (f.listener) (f.store.keeps _ c.listener_lives);
    listener_below = omega (arith, f.listener, f.store.grows);
    owned =
        rw (f.listener, f.counter, f.peers) (Owned-Extends _ _ _ _ f.store (omega arith) c.owned);
    pending = rw (f.thread, f.queue) c.pending;
  }
