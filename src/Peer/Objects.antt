-- ===== src/Peer/Objects.antt =====
-- src/Peer.cpp: the constructors, the assignments and the destructor of Peer, on objects that own a
-- PeerPrivate each. `variable x` is `none` where no object lives under the name `x`; the pointer of
-- an object, `m_private`, is `none` where it is null.
use simpwire.Prelude.{ℕ, suc, Option, none, some, List, [], ◌∷◌}
use simpwire.Store.{
  Result, ok, fault, dangling_pointer, null_pointer, no_object, object_in_use, update,
}
use simpwire.PeerPrivate.{PeerPrivate, new_peer_private, assign_private}
pub mod Values
pub mod Ownership
pub mod Changes
pub mod Filling
pub mod Refinement
pub mod Clean
mod Tests

pub record Objects : Type 0 where
  pub private_at : ℕ → Option PeerPrivate
  pub next : ℕ
  pub variable : ℕ → Option (Option ℕ)

-- `delete`: nothing happens on a null pointer.
unfoldable pub delete_private : Option ℕ → Objects → Result Objects
delete_private none h = ok h
delete_private (some a) h = elim (h.private_at a) [
  | none ↦ fault dangling_pointer
  | some p ↦ ok (record h { private_at = update h.private_at a none })
]

-- `new PeerPrivate()`
unfoldable pub new_private : Objects → ℕ × Objects
new_private h = (
  h.next,
  record h { private_at = update h.private_at h.next (some new_peer_private); next = suc h.next },
)

-- `*p`
unfoldable pub load : Option ℕ → Objects → Result PeerPrivate
load none h = fault null_pointer
load (some a) h = elim (h.private_at a) [ none ↦ fault dangling_pointer | some p ↦ ok p ]

-- A name under which no object lives yet.
unfoldable pub unused : {A : Type 0} → ℕ → Objects → (Unit {0} → Result A) → Result A
unused x h k = elim (h.variable x) [ none ↦ k tt | some p ↦ fault object_in_use ]

-- The pointer of an object.
unfoldable pub pointer : {A : Type 0} → ℕ → Objects → (Option ℕ → Result A) → Result A
pointer x h k = elim (h.variable x) [ none ↦ fault no_object | some p ↦ k p ]

-- `x`'s m_private becomes a copy of what `y`'s points to. `y`'s pointer is read after `x`'s has been
-- replaced, and the two may be one object.
unfoldable pub fill : ℕ → ℕ → Objects → Result Objects
unfolding new_private
fill x y h =
    let (a, h₁) = new_private h in
    let h₂ = record h₁ { variable = update h₁.variable x (some (some a)) } in
    elim (h₂.variable y) [
      | none ↦ fault no_object
      | some other ↦ elim (load other h₂) [
        | fault e ↦ fault e
        | ok p ↦ ok (record h₂ {
          private_at = update h₂.private_at a (some (assign_private new_peer_private p));
        })
      ]
    ]

-- Peer::Peer()
unfoldable pub construct : ℕ → Objects → Result Objects
unfolding new_private
construct x h = unused x h λ _.
    let (a, h₁) = new_private h in
    ok (record h₁ { variable = update h₁.variable x (some (some a)) })

-- Peer::Peer(const Peer &): the pointer that it deletes first is null.
unfoldable pub copy_construct : ℕ → ℕ → Objects → Result Objects
copy_construct x y h = unused x h λ _. fill x y h

-- Peer::operator=
unfoldable pub assign : ℕ → ℕ → Objects → Result Objects
assign x y h =
    pointer x h λ old. elim (delete_private old h) [ fault e ↦ fault e | ok h₁ ↦ fill x y h₁ ]

-- Peer::Peer(Peer &&)
unfoldable pub move_construct : ℕ → ℕ → Objects → Result Objects
move_construct x y h = unused x h λ _.
    pointer y h
      λ p. ok (record h { variable = update (update h.variable x (some p)) y (some none) })

-- Peer::~Peer
unfoldable pub destruct : ℕ → Objects → Result Objects
destruct x h = pointer x h λ p. elim (delete_private p h) [
  | fault e ↦ fault e
  | ok h₁ ↦ ok (record h₁ { variable = update h₁.variable x none })
]

-- A change of what `m_private` points to, as the node makes it.
unfoldable pub write : ℕ → (PeerPrivate → PeerPrivate) → Objects → Result Objects
write x f h = pointer x h λ p. elim p [
  | none ↦ fault null_pointer
  | some a ↦ elim (h.private_at a) [
    | none ↦ fault dangling_pointer
    | some v ↦ ok (record h { private_at = update h.private_at a (some (f v)) })
  ]
]
