-- ===== src/TcpNodePrivate/Map.antt =====
-- The operations of std::unordered_map<uint64_t, Peer> that a node uses, on the association list
-- that holds its elements in the order of iteration. Where a new element goes in that order is the
-- library's choice; here it goes in front.
use simpwire.Prelude.{ℕ, Option, none, some, [], ◌∷◌, ◌==◌, if◌then◌else◌}
use simpwire.PeerPrivate.{PeerPrivate}
use simpwire.TcpNodePrivate.State.{PeerList}

unfoldable pub find : ℕ → PeerList → Option PeerPrivate
find k [] = none
find k ((j, p) ∷ ps) = if j == k then some p else find k ps

-- Nothing happens if the key is there.
unfoldable pub insert : ℕ → PeerPrivate → PeerList → PeerList
insert k p ps = elim (find k ps) [ none ↦ (k, p) ∷ ps | some _ ↦ ps ]

-- `at(k)` as a place to write; `f` is what is done there.
unfoldable pub modify_at : ℕ → (PeerPrivate → PeerPrivate) → PeerList → PeerList
modify_at k f [] = []
modify_at k f ((j, p) ∷ ps) = if j == k then (j, f p) ∷ ps else (j, p) ∷ modify_at k f ps

unfoldable pub erase : ℕ → PeerList → PeerList
erase k [] = []
erase k ((j, p) ∷ ps) = if j == k then ps else (j, p) ∷ erase k ps
