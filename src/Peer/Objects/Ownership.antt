-- ===== src/Peer/Objects/Ownership.antt =====
-- Every PeerPrivate belongs to exactly one object, and what that says of the changes of the heap.
use simpwire.Prelude.{
  ℕ, suc, ◌<◌, ◌≡◌, ◌≢◌, refl, sym, ◌∙◌, ap, ◌⊎◌, Option, none, some, arith, ◌==◌, Bool-cases, inl,
  inr, ==-self, ==-ne,
}
use simpwire.Store.{update}
use simpwire.PeerPrivate.{PeerPrivate}
use simpwire.Peer.{Peer}
use simpwire.Peer.Objects.{Objects}
use simpwire.Peer.Objects.Values.{Values}

abbrev pub behind : (ℕ → Option PeerPrivate) → Option ℕ → Peer
behind m none = none
behind m (some a) = m a

abbrev pub seen : (ℕ → Option PeerPrivate) → Option (Option ℕ) → Option Peer
seen m none = none
seen m (some p) = some (behind m p)

-- The value of each variable.
unfoldable pub view : Objects → Values
view h x = seen h.private_at (h.variable x)

pub record Valid (h : Objects) : Type 0 where
  -- A pointer that is not null points to something,
  pub lives : (x a : ℕ) → h.variable x ≡ some (some a) → h.private_at a ≢ none
  -- which lies below the next new address
  pub below : (x a : ℕ) → h.variable x ≡ some (some a) → a < h.next
  -- and belongs to no other object.
  pub apart : (x y a : ℕ) → h.variable x ≡ some (some a) → h.variable y ≡ some (some a) → x ≡ y
  -- Nothing is left without an owner.
  pub owner : (a : ℕ) → h.private_at a ≢ none → (x : ℕ) × (h.variable x ≡ some (some a))

-- `x` has come to own a new object with the value `p`, and what it owned before is gone.
pub record Rebound (x : ℕ) (p : PeerPrivate) (h k : Objects) : Type 0 where
  pub advanced : k.next ≡ suc h.next
  pub here : k.variable x ≡ some (some h.next)
  pub elsewhere : (y : ℕ) → y ≢ x → k.variable y ≡ h.variable y
  pub filled : k.private_at h.next ≡ some p
  pub freed : (a : ℕ) → h.variable x ≡ some (some a) → k.private_at a ≡ none
  pub kept : (a : ℕ) → a ≢ h.next → h.variable x ≢ some (some a) → k.private_at a ≡ h.private_at a

pub owned-cases : (o : Option (Option ℕ)) (a : ℕ) → (o ≡ some (some a)) ⊎ (o ≢ some (some a))
owned-cases none a = inr λ e. cc
owned-cases (some none) a = inr λ e. cc
owned-cases (some (some b)) a = elim (Bool-cases (b == a)) [
  | inl e ↦ inl (ground arith)
  | inr e ↦ inr λ same. ground arith
]

pub ℕ-cases : (a b : ℕ) → (a ≡ b) ⊎ (a ≢ b)
ℕ-cases a b = elim (Bool-cases (a == b)) [
  | inl e ↦ inl (ground arith)
  | inr e ↦ inr λ same. ground arith
]

module _ (x : ℕ) (p : PeerPrivate) (h k : Objects) (v : Valid h) (r : Rebound x p h k) where
  -- Who owns `a` now: `x` the new object, or another what it owned before.
  owner-cases :
      (y a : ℕ)
      → k.variable y ≡ some (some a)
      → ((y ≡ x) × (a ≡ h.next))
        ⊎ (y ≢ x) × (h.variable y ≡ some (some a)) × (a ≢ h.next) × (h.variable x ≢ some (some a))
  owner-cases y a e = elim (ℕ-cases y x) [
    | inl same ↦ inl (same, ground (arith, r.here))
    | inr other ↦
        let before : h.variable y ≡ some (some a) = sym (r.elsewhere y other) ∙ e in
        inr (other, before, omega (arith, v.below y a before), λ f. other (v.apart y x a before f))
  ]

  pub Rebound-Valid : Valid k
  Rebound-Valid = record {
    lives = λ y a e. elim (owner-cases y a e) [
      | inl (same, new) ↦ λ f. ground (arith, r.filled)
      | inr (other, before, old, kept) ↦ λ f. v.lives y a before (sym (r.kept a old kept) ∙ f)
    ];
    below = λ y a e. elim (owner-cases y a e) [
      | inl (same, new) ↦ omega (arith, r.advanced)
      | inr (other, before, old, kept) ↦ omega (arith, r.advanced, v.below y a before)
    ];
    apart = λ y z a e f. elim (owner-cases y a e) [
      | inl (same, new) ↦ elim (owner-cases z a f) [
        | inl (same', new') ↦ same ∙ sym same'
        | inr (other', before', old', kept') ↦ absurd (old' new)
      ]
      | inr (other, before, old, kept) ↦ elim (owner-cases z a f) [
        | inl (same', new') ↦ absurd (old new')
        | inr (other', before', old', kept') ↦ v.apart y z a before before'
      ]
    ];
    owner = λ a e. elim (ℕ-cases a h.next) [
      | inl new ↦ (x, r.here ∙ ap (λ b. some (some b)) (sym new))
      | inr old ↦ elim (owned-cases (h.variable x) a) [
        | inl own ↦ absurd (e (r.freed a own))
        | inr kept ↦
            let (z, before) = v.owner a λ f. e (r.kept a old kept ∙ f) in
            (z, r.elsewhere z (λ same. kept (ap h.variable (sym same) ∙ before)) ∙ before)
      ]
    ];
  }

  seen-same :
      (y : ℕ) (o : Option (Option ℕ))
      → y ≢ x
      → h.variable y ≡ o
      → seen k.private_at o ≡ seen h.private_at o
  seen-same y none other e = refl
  seen-same y (some none) other e = refl
  seen-same y (some (some a)) other e =
      ap some (r.kept a (omega (arith, v.below y a e)) λ f. other (v.apart y x a e f))

  pub Rebound-view : (y : ℕ) → view k y ≡ update (view h) x (some (some p)) y
  unfolding view
  Rebound-view y = elim (ℕ-cases y x) [
    | inl same ↦ rw (same, r.here, ==-self, r.filled) refl
    | inr other ↦ rw (==-ne other, r.elsewhere y other) (seen-same y (h.variable y) other refl)
  ]
