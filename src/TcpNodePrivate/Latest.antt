-- ===== src/TcpNodePrivate/Latest.antt =====
-- The peer that `latestPeer` finds.
use simpwire.Prelude.{
  ℕ, ◌≤◌, ◌≡◌, ◌≢◌, refl, false, none, some, [], ◌∷◌, arith, inl, inr, ap, sym, ◌∙◌, subst,
  Bool-cases, ◌⊎◌, ltb, All, Option-cases,
}
use simpwire.ISocket.{ISocket}
use simpwire.Store.{Store, ok}
use simpwire.PeerPrivate.{PeerPrivate}
use simpwire.TcpNodePrivate.State.{State, PeerList}
use simpwire.TcpNodePrivate.Monad.{lock_data, unlock_data}
use simpwire.TcpNodePrivate.Invariant.{Owned, Inv}
use simpwire.TcpNodePrivate.Ownership.{find-Sound, find_head}
use simpwire.TcpNodePrivate.Map.{find}
use simpwire.TcpNodePrivate.Requests.{max_id, is_empty, at, latest_peer}

-- The search never falls below where it starts.
pub max_id-above : (m : ℕ) (ps : PeerList) → m ≤ max_id m ps
unfolding max_id
max_id-above m [] = omega arith
max_id-above m ((k, p) ∷ ps) = ground (arith, max_id-above m ps, max_id-above k ps)

-- It ends where it starts or at a number of the map.
pub max_id-found : (m : ℕ) (ps : PeerList) → (max_id m ps ≡ m) ⊎ (find (max_id m ps) ps ≢ none)
unfolding max_id find
max_id-found m [] = inl refl
max_id-found m ((k, p) ∷ ps) = ground (arith, max_id-found m ps, max_id-found k ps)

-- No number of the map is greater.
All-below : (m b : ℕ) (ps : PeerList) → max_id m ps ≤ b → All (λ e. e.0 ≤ b) ps
unfolding max_id
All-below m b [] h = tt
All-below m b ((k, p) ∷ ps) h = elim (Bool-cases (ltb m k)) [
  | inl e ↦
      let h' : max_id k ps ≤ b = ground arith in
      (omega (arith, max_id-above k ps, h'), All-below k b ps h')
  | inr e ↦
      let h' : max_id m ps ≤ b = ground arith in
      let k_small : k ≤ m = ground arith in
      (omega (arith, max_id-above m ps, h', k_small), All-below m b ps h')
]

pub max_id-greatest : (m : ℕ) (ps : PeerList) → All (λ e. e.0 ≤ max_id m ps) ps
max_id-greatest m ps = All-below m (max_id m ps) ps (omega arith)

-- In a map that is not empty it is a number of the map, if no number there is 0.
pub max_id-present :
    (ps : PeerList) → ps ≢ [] → All (λ e. 1 ≤ e.0) ps → find (max_id 0 ps) ps ≢ none
max_id-present [] more pos = absurd (more refl)
max_id-present ((k, p) ∷ ps) more pos = elim (max_id-found 0 ((k, p) ∷ ps)) [
  | inl e ↦ absurd (omega (arith, (max_id-greatest 0 ((k, p) ∷ ps)).0, pos.0, e))
  | inr found ↦ found
]

pub Owned-positive :
    {I : ISocket} (m : Store I) (l c : ℕ) (ps : PeerList) → Owned m l c ps → All (λ e. 1 ≤ e.0) ps
Owned-positive m l c [] o = tt
Owned-positive m l c ((k, p) ∷ ps) o = (o.0.positive, Owned-positive m l c ps o.2)

not_empty-false : (ps : PeerList) → ps ≢ [] → is_empty ps ≡ false
unfolding is_empty
not_empty-false [] h = absurd (h refl)
not_empty-false (e ∷ ps) h = refl

module _ {I : ISocket} where
  relocked : (s : State I) → s.data_access ≡ false → record s { data_access = false } ≡ s
  relocked s e = ap (λ b. record s { data_access = b }) (sym e)

  found_lem :
      (p : PeerPrivate) (s : State I)
      → s.data_access ≡ false
      → is_empty s.peers ≡ false
      → find (max_id 0 s.peers) s.peers ≡ some p
      → latest_peer s ≡ ok (some p, s)
  unfolding latest_peer at lock_data unlock_data
  found_lem p s free more e =
      subst (λ t. latest_peer t ≡ ok (some p, t)) (relocked s free) (rw (more, at, e) refl)

  -- In a node with the invariant and a peer at least, `latestPeer` returns the peer of the map
  -- that has the greatest id, and nothing else changes.
  pub latest_peer-find :
      (s : State I)
      → Inv s
      → s.peers ≢ []
      → (p : PeerPrivate) × (latest_peer s ≡ ok (some p, s))
        × (find p.connection_id s.peers ≡ some p)
        × All (λ e. e.0 ≤ p.connection_id) s.peers
  unfolding latest_peer is_empty at lock_data unlock_data
  latest_peer-find s h more = elim (Option-cases (find (max_id 0 s.peers) s.peers)) [
    | inl e ↦ absurd (
        max_id-present s.peers more
          (Owned-positive s.store s.listener s.connection_counter s.peers h.core.owned) e)
    | inr (p, e) ↦
        let sound =
          find-Sound s.store s.listener s.connection_counter (max_id 0 s.peers) p s.peers
            h.core.owned e in
        (
          p,
          found_lem p s h.data_free (not_empty-false s.peers more) e,
          ap (λ k. find k s.peers) sound.keyed ∙ e,
          rw (sound.keyed) (max_id-greatest 0 s.peers),
        )
  ]

-- A number that the map holds is below every bound of its numbers.
found-below :
    (k b : ℕ) (p : PeerPrivate) (ps : PeerList) → find k ps ≡ some p → All (λ e. e.0 ≤ b) ps → k ≤ b
unfolding find
found-below k b p [] e h = cc
found-below k b p ((j, q) ∷ ps) e h = elim (find_head j k q p ps e) [
  | inl (jk, _) ↦ omega (arith, h.0, jk)
  | inr r ↦ found-below k b p ps r h.1
]

found-ne-nil : (k : ℕ) (p : PeerPrivate) (ps : PeerList) → find k ps ≡ some p → ps ≢ []
unfolding find
found-ne-nil k p [] e = cc
found-ne-nil k p (x ∷ ps) e = λ h. cc

module _ {I : ISocket} where
  -- In two nodes with the invariant whose maps have the same peers under the same numbers, in
  -- whatever order they are iterated, and hold a peer at least: `latestPeer` returns the same peer,
  -- and neither node changes.
  pub latest_peer-same :
      (s t : State I)
      → Inv s
      → Inv t
      → ((k : ℕ) → find k s.peers ≡ find k t.peers)
      → s.peers ≢ []
      → (p : PeerPrivate) × (latest_peer s ≡ ok (some p, s)) × (latest_peer t ≡ ok (some p, t))
  latest_peer-same s t h g same more =
      let (p, answer, found, greatest) = latest_peer-find s h more in
      let there : find p.connection_id t.peers ≡ some p = sym (same p.connection_id) ∙ found in
      let (q, answer', found', greatest') =
        latest_peer-find t g (found-ne-nil p.connection_id p t.peers there) in
      let back : find q.connection_id s.peers ≡ some q = same q.connection_id ∙ found' in
      let p_first : p.connection_id ≤ q.connection_id =
        found-below p.connection_id q.connection_id p t.peers there greatest' in
      let q_first : q.connection_id ≤ p.connection_id =
        found-below q.connection_id p.connection_id q s.peers back greatest in
      let id_same : p.connection_id ≡ q.connection_id = omega (arith, p_first, q_first) in
      let found_q : some p ≡ some q = sym there ∙ ap (λ k. find k t.peers) id_same ∙ found' in
      let peer_same : p ≡ q = cc in (p, answer, answer' ∙ ap (λ r. ok (some r, t)) (sym peer_same))
