-- ===== src/Peer/Objects/Changes.antt =====
-- The changes of the heap that bring no new PeerPrivate: an object ends, is moved from, or is
-- written through.
use simpwire.Prelude.{
  ℕ, ◌≡◌, ◌≢◌, refl, sym, ◌∙◌, ap, ◌⊎◌, Option, none, some, arith, inl, inr, ==-self, ==-ne,
}
use simpwire.Store.{update}
use simpwire.PeerPrivate.{PeerPrivate}
use simpwire.Peer.Objects.{Objects}
use simpwire.Peer.Objects.Ownership.{Valid, view, seen, owned-cases, ℕ-cases}

-- `x` has ended, and what it owned is gone.
pub record Released (x : ℕ) (h k : Objects) : Type 0 where
  pub stays : k.next ≡ h.next
  pub here : k.variable x ≡ none
  pub elsewhere : (y : ℕ) → y ≢ x → k.variable y ≡ h.variable y
  pub freed : (a : ℕ) → h.variable x ≡ some (some a) → k.private_at a ≡ none
  pub kept : (a : ℕ) → h.variable x ≢ some (some a) → k.private_at a ≡ h.private_at a

module _ (x : ℕ) (h k : Objects) (v : Valid h) (r : Released x h k) where
  survivor :
      (y a : ℕ)
      → k.variable y ≡ some (some a)
      → (y ≢ x) × (h.variable y ≡ some (some a)) × (h.variable x ≢ some (some a))
  survivor y a e = elim (ℕ-cases y x) [
    | inl same ↦ absurd (ended same)
    | inr other ↦
        let before : h.variable y ≡ some (some a) = sym (r.elsewhere y other) ∙ e in
        (other, before, λ f. other (v.apart y x a before f))
  ]
    where
      ended : y ≡ x → ⊥
      ended same = ground (arith, r.here)

  pub Released-Valid : Valid k
  Released-Valid = record {
    lives = λ y a e.
        let (other, before, kept) = survivor y a e in
        λ f. v.lives y a before (sym (r.kept a kept) ∙ f);
    below = λ y a e.
        let (other, before, kept) = survivor y a e in omega (arith, r.stays, v.below y a before);
    apart = λ y z a e f. v.apart y z a (survivor y a e).1 (survivor z a f).1;
    owner = λ a e. elim (owned-cases (h.variable x) a) [
      | inl own ↦ absurd (e (r.freed a own))
      | inr kept ↦
          let (z, before) = v.owner a λ f. e (r.kept a kept ∙ f) in
          (z, r.elsewhere z (λ same. kept (ap h.variable (sym same) ∙ before)) ∙ before)
    ];
  }

  seen-survivor :
      (y : ℕ) (o : Option (Option ℕ))
      → y ≢ x
      → h.variable y ≡ o
      → seen k.private_at o ≡ seen h.private_at o
  seen-survivor y none other e = refl
  seen-survivor y (some none) other e = refl
  seen-survivor y (some (some a)) other e = ap some (r.kept a λ f. other (v.apart y x a e f))

  pub Released-view : (y : ℕ) → view k y ≡ update (view h) x none y
  unfolding view
  Released-view y = elim (ℕ-cases y x) [
    | inl same ↦ rw (same, r.here, ==-self) refl
    | inr other ↦ rw (==-ne other, r.elsewhere y other) (seen-survivor y (h.variable y) other refl)
  ]

-- `x` has got the pointer of `y`, which is null now.
pub record Moved (x y : ℕ) (h k : Objects) : Type 0 where
  pub stays : k.next ≡ h.next
  pub same_heap : k.private_at ≡ h.private_at
  pub there : k.variable x ≡ h.variable y
  pub left : k.variable y ≡ some none
  pub elsewhere : (z : ℕ) → z ≢ x → z ≢ y → k.variable z ≡ h.variable z

module _ (x y : ℕ) (h k : Objects) (v : Valid h) (r : Moved x y h k) (fresh : h.variable x ≡ none)
    (apart : x ≢ y) where
  -- What owns `a` now, and what owned it before.
  mover :
      (z a : ℕ)
      → k.variable z ≡ some (some a)
      → ((z ≡ x) × (h.variable y ≡ some (some a))) ⊎ (z ≢ y) × (h.variable z ≡ some (some a))
  mover z a e = elim (ℕ-cases z x) [
    | inl same ↦ inl (same, sym r.there ∙ ap k.variable (sym same) ∙ e)
    | inr other ↦ elim (ℕ-cases z y) [
      | inl same ↦ absurd (null same)
      | inr other' ↦ inr (other', sym (r.elsewhere z other other') ∙ e)
    ]
  ]
    where
      null : z ≡ y → ⊥
      null same = ground (arith, r.left)

  before : (z a : ℕ) → k.variable z ≡ some (some a) → (w : ℕ) × (h.variable w ≡ some (some a))
  before z a e = elim (mover z a e) [ inl (same, f) ↦ (y, f) | inr (other, f) ↦ (z, f) ]

  pub Moved-Valid : Valid k
  Moved-Valid = record {
    lives = λ z a e.
        let (w, f) = before z a e in λ g. v.lives w a f (sym (ap (λ m. m a) r.same_heap) ∙ g);
    below = λ z a e. let (w, f) = before z a e in omega (arith, r.stays, v.below w a f);
    apart = λ z w a e f. elim (mover z a e) [
      | inl (same, g) ↦ elim (mover w a f) [
        | inl (same', g') ↦ same ∙ sym same'
        | inr (other', g') ↦ absurd (other' (v.apart w y a g' g))
      ]
      | inr (other, g) ↦ elim (mover w a f) [
        | inl (same', g') ↦ absurd (other (v.apart z y a g g'))
        | inr (other', g') ↦ v.apart z w a g g'
      ]
    ];
    owner = λ a e.
        let (w, f) = v.owner a λ g. e (ap (λ m. m a) r.same_heap ∙ g) in
        elim (ℕ-cases w y) [
          | inl same ↦ (x, r.there ∙ ap h.variable (sym same) ∙ f)
          | inr other ↦ (w, r.elsewhere w (not_fresh w a f) other ∙ f)
        ];
  }
    where
      not_fresh : (w a : ℕ) → h.variable w ≡ some (some a) → w ≢ x
      not_fresh w a f same = ground arith

  pub Moved-view : (z : ℕ) → view k z ≡ update (update (view h) x (view h y)) y (some none) z
  unfolding view
  Moved-view z = elim (ℕ-cases z y) [
    | inl same ↦ rw (same, r.left, ==-self) refl
    | inr other ↦ elim (ℕ-cases z x) [
      | inl same ↦ rw (same, ==-ne apart, ==-self, r.there, r.same_heap) refl
      | inr other' ↦ rw (==-ne other, ==-ne other', r.elsewhere z other' other, r.same_heap) refl
    ]
  ]

-- What `x` owns, at `a`, has got the value `p`.
pub record Written (x a : ℕ) (p : PeerPrivate) (h k : Objects) : Type 0 where
  pub stays : k.next ≡ h.next
  pub own : h.variable x ≡ some (some a)
  pub same_variables : k.variable ≡ h.variable
  pub now : k.private_at a ≡ some p
  pub kept : (b : ℕ) → b ≢ a → k.private_at b ≡ h.private_at b

module _ (x a : ℕ) (p : PeerPrivate) (h k : Objects) (v : Valid h) (r : Written x a p h k) where
  owner_before : (y b : ℕ) → k.variable y ≡ some (some b) → h.variable y ≡ some (some b)
  owner_before y b e = sym (ap (λ m. m y) r.same_variables) ∙ e

  pub Written-Valid : Valid k
  Written-Valid = record {
    lives = λ y b e. elim (ℕ-cases b a) [
      | inl same ↦ λ f. ground (arith, r.now)
      | inr other ↦ λ f. v.lives y b (owner_before y b e) (sym (r.kept b other) ∙ f)
    ];
    below = λ y b e. omega (arith, r.stays, v.below y b (owner_before y b e));
    apart = λ y z b e f. v.apart y z b (owner_before y b e) (owner_before z b f);
    owner = λ b e. elim (ℕ-cases b a) [
      | inl same ↦ (x, ap (λ m. m x) r.same_variables ∙ r.own ∙ ap (λ c. some (some c)) (sym same))
      | inr other ↦
          let (z, f) = v.owner b λ g. e (r.kept b other ∙ g) in
          (z, ap (λ m. m z) r.same_variables ∙ f)
    ];
  }

  seen-other :
      (y : ℕ) (o : Option (Option ℕ))
      → y ≢ x
      → h.variable y ≡ o
      → seen k.private_at o ≡ seen h.private_at o
  seen-other y none other e = refl
  seen-other y (some none) other e = refl
  seen-other y (some (some b)) other e =
      ap some (r.kept b λ same. other (v.apart y x a (e ∙ ap (λ c. some (some c)) same) r.own))

  pub Written-view : (y : ℕ) → view k y ≡ update (view h) x (some (some p)) y
  unfolding view
  Written-view y = elim (ℕ-cases y x) [
    | inl same ↦ rw (same, r.same_variables, r.own, ==-self, r.now) refl
    | inr other ↦ rw (==-ne other, r.same_variables) (seen-other y (h.variable y) other refl)
  ]
