-- ===== src/Peer/Objects/Values.antt =====
-- What Peer objects promise: they are values. A variable has a value or none, a value is that of a
-- PeerPrivate or that of a moved-from object, and a command changes the variables it names.
use simpwire.Prelude.{ℕ, Option, none, some, List, [], ◌∷◌, ◌==◌, if◌then◌else◌}
use simpwire.Store.{Result, ok, fault, update}
use simpwire.PeerPrivate.{PeerPrivate, new_peer_private}
use simpwire.Peer.{Peer}
use simpwire.Peer.Objects
use simpwire.Peer.Objects.{Objects}

pub data Command : Type 0 where
  construct : ℕ → Command
  copy_construct : ℕ → ℕ → Command
  assign : ℕ → ℕ → Command
  move_construct : ℕ → ℕ → Command
  destruct : ℕ → Command
  write : ℕ → (PeerPrivate → PeerPrivate) → Command

-- The command on objects.
unfoldable pub execute : Command → Objects → Result Objects
execute (construct x) h = Objects.construct x h
execute (copy_construct x y) h = Objects.copy_construct x y h
execute (assign x y) h = Objects.assign x y h
execute (move_construct x y) h = Objects.move_construct x y h
execute (destruct x) h = Objects.destruct x h
execute (write x f) h = Objects.write x f h

unfoldable pub execute_all : List Command → Objects → Result Objects
execute_all [] h = ok h
execute_all (c ∷ cs) h = elim (execute c h) [ fault e ↦ fault e | ok h' ↦ execute_all cs h' ]

abbrev pub Values : Type 0
Values = ℕ → Option Peer

-- The value that `x` gets from `y`. An object that is copied to itself is new.
unfoldable pub copied : ℕ → ℕ → Values → Option PeerPrivate
copied x y v = if y == x then some new_peer_private else elim (v y) [ none ↦ none | some p ↦ p ]

unfoldable pub set_copied : ℕ → ℕ → Values → Option Values
unfolding copied
set_copied x y v = elim (copied x y v) [ none ↦ none | some p ↦ some (update v x (some (some p))) ]

-- The command on values. A wrong use has no result: a second object under one name, a name without
-- an object, a read of a moved-from object.
unfoldable pub specify : Command → Values → Option Values
specify (construct x) v = elim (v x) [
  | none ↦ some (update v x (some (some new_peer_private)))
  | some p ↦ none
]
specify (copy_construct x y) v = elim (v x) [ none ↦ set_copied x y v | some p ↦ none ]
specify (assign x y) v = elim (v x) [ none ↦ none | some p ↦ set_copied x y v ]
specify (move_construct x y) v = elim (v x) [
  | none ↦ elim (v y) [ none ↦ none | some p ↦ some (update (update v x (some p)) y (some none)) ]
  | some q ↦ none
]
specify (destruct x) v = elim (v x) [ none ↦ none | some p ↦ some (update v x none) ]
specify (write x f) v = elim (v x) [
  | none ↦ none
  | some none ↦ none
  | some (some p) ↦ some (update v x (some (some (f p))))
]

unfoldable pub specify_all : List Command → Values → Option Values
specify_all [] v = some v
specify_all (c ∷ cs) v = elim (specify c v) [ none ↦ none | some v' ↦ specify_all cs v' ]
