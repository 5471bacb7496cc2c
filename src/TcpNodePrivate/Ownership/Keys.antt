-- ===== src/TcpNodePrivate/Ownership/Keys.antt =====
-- Which keys and sockets the map of peers has, when it is changed in place.
use simpwire.Prelude.{
  ℕ, ◌≤◌, ◌<◌, ◌≡◌, ◌≢◌, refl, true, Option, none, some, [], ◌∷◌, arith, inl, inr, Bool-cases, ◌⊎◌,
}
use simpwire.ISocket.{ISocket}
use simpwire.Store.{Store}
use simpwire.PeerPrivate.{PeerPrivate, schedule_delete}
use simpwire.TcpNodePrivate.State.{PeerList}
use simpwire.TcpNodePrivate.Invariant.{Unshared, Owned}
use simpwire.TcpNodePrivate.Map.{find, erase, modify_at}
use simpwire.TcpNodePrivate.Requests.{schedule_all}
use simpwire.TcpNodePrivate.Remove.{next_scheduled}

-- Two versions of one peer, as far as ownership goes.
pub record SameOwner (p q : PeerPrivate) : Type 0 where
  pub socket : q.socket ≡ p.socket
  pub connection_id : q.connection_id ≡ p.connection_id
  pub valid : q.valid ≡ p.valid

-- Two versions of one map.
abbrev pub Tracks : PeerList → PeerList → Type 0
Tracks [] [] = Unit {0}
Tracks [] (f ∷ qs) = ⊥
Tracks (e ∷ ps) [] = ⊥
Tracks ((k, p) ∷ ps) ((j, q) ∷ qs) = (j ≡ k) × SameOwner p q × Tracks ps qs

pub Tracks-refl : (ps : PeerList) → Tracks ps ps
Tracks-refl [] = tt
Tracks-refl ((k, p) ∷ ps) =
    (refl, record { socket = refl; connection_id = refl; valid = refl }, Tracks-refl ps)

-- All peers scheduled.
pub Tracks-schedule_all : (ps : PeerList) → Tracks ps (schedule_all ps)
unfolding schedule_delete
Tracks-schedule_all [] = tt
Tracks-schedule_all ((k, p) ∷ ps) =
    (refl, record { socket = refl; connection_id = refl; valid = refl }, Tracks-schedule_all ps)

-- What is done to one peer with its owner kept.
pub Tracks-modify_at :
    (k : ℕ) (f : PeerPrivate → PeerPrivate) (ps : PeerList)
    → ((p : PeerPrivate) → SameOwner p (f p))
    → Tracks ps (modify_at k f ps)
unfolding modify_at
Tracks-modify_at k f [] h = tt
Tracks-modify_at k f ((j, p) ∷ ps) h =
    ground (arith, h p, Tracks-refl ps, Tracks-modify_at k f ps h)

pub Unshared-Tracks :
    (k : ℕ) (sock : Option ℕ) (ps qs : PeerList)
    → Tracks ps qs
    → Unshared k sock ps
    → Unshared k sock qs
Unshared-Tracks k sock [] [] t u = tt
Unshared-Tracks k sock [] (f ∷ qs) t u = absurd t
Unshared-Tracks k sock (e ∷ ps) [] t u = absurd t
Unshared-Tracks k sock ((i, p) ∷ ps) ((j, q) ∷ qs) t u =
    (rw t.0 u.0, rw (t.1.socket) u.1, Unshared-Tracks k sock ps qs t.2 u.2)

module _ {I : ISocket} where
  pub Owned-Tracks :
      (m : Store I) (l c : ℕ) (ps qs : PeerList) → Tracks ps qs → Owned m l c ps → Owned m l c qs
  Owned-Tracks m l c [] [] t o = tt
  Owned-Tracks m l c [] (f ∷ qs) t o = absurd t
  Owned-Tracks m l c (e ∷ ps) [] t o = absurd t
  Owned-Tracks m l c ((k, p) ∷ ps) ((j, q) ∷ qs) t o = (
    record {
      own = rw (t.1.socket) o.0.own;
      keyed = rw (t.1.connection_id, t.0) o.0.keyed;
      positive = rw t.0 o.0.positive;
      counted = rw t.0 o.0.counted;
      valid = rw (t.1.valid) o.0.valid;
    },
    rw (t.0, t.1.socket) (Unshared-Tracks k p.socket ps qs t.2 o.1),
    Owned-Tracks m l c ps qs t.2 o.2,
  )

  -- No peer has a number above the counter.
  pub find-above :
      (m : Store I) (l c k : ℕ) (ps : PeerList) → Owned m l c ps → c < k → find k ps ≡ none
  unfolding find
  find-above m l c k [] o h = refl
  find-above m l c k ((j, p) ∷ ps) o h = ground (arith, find-above m l c k ps o.2 h)

  pub Unshared-above :
      (m : Store I) (l c k a : ℕ) (ps : PeerList)
      → Owned m l c ps
      → c < k
      → m.next ≤ a
      → Unshared k (some a) ps
  Unshared-above m l c k a [] o h n = tt
  Unshared-above m l c k a ((j, p) ∷ ps) o h n =
      (omega (arith, o.0.counted), ground arith, Unshared-above m l c k a ps o.2 h n)

pub Unshared-find :
    (k : ℕ) (sock : Option ℕ) (ps : PeerList) → Unshared k sock ps → find k ps ≡ none
unfolding find
Unshared-find k sock [] u = refl
Unshared-find k sock ((j, p) ∷ ps) u = ground (arith, Unshared-find k sock ps u.2)

pub Unshared-erase :
    (k : ℕ) (sock : Option ℕ) (j : ℕ) (ps : PeerList)
    → Unshared k sock ps
    → Unshared k sock (erase j ps)
unfolding erase
Unshared-erase k sock j [] u = tt
Unshared-erase k sock j ((i, p) ∷ ps) u = ground (arith, Unshared-erase k sock j ps u.2)

-- Either the first peer is to be deleted, or the answer is that of the rest.
pub next_scheduled_head :
    (i k : ℕ) (q p : PeerPrivate) (ps : PeerList)
    → next_scheduled ((i, q) ∷ ps) ≡ some (k, p)
    → ((q.to_be_deleted ≡ true) × (i ≡ k) × (q ≡ p)) ⊎ (next_scheduled ps ≡ some (k, p))
unfolding next_scheduled
next_scheduled_head i k q p ps e = elim (Bool-cases q.to_be_deleted) [
  | inl d ↦ inl (d, ground arith, ground arith)
  | inr d ↦ inr (ground arith)
]

-- The peer to be deleted is one of the list.
pub next_scheduled-Unshared :
    (j k : ℕ) (sock : Option ℕ) (p : PeerPrivate) (ps : PeerList)
    → next_scheduled ps ≡ some (k, p)
    → Unshared j sock ps
    → (k ≢ j) × (p.socket ≢ sock)
unfolding next_scheduled
next_scheduled-Unshared j k sock p [] e u = cc
next_scheduled-Unshared j k sock p ((i, q) ∷ ps) e u =
    ground (arith, next_scheduled-Unshared j k sock p ps)
