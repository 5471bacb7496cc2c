-- ===== src/Peer/Objects/Filling.antt =====
-- Copies between Peer objects: `fill` on objects and on values.
use simpwire.Prelude.{
  ℕ, suc, ◌≡◌, ◌≢◌, refl, ◌∙◌, ap, fun_ext, Option, none, some, arith, inl, inr, ==-self, ==-ne,
  Option-cases,
}
use simpwire.Store.{Result, ok, fault, update, no_object, null_pointer}
use simpwire.PeerPrivate.{PeerPrivate, new_peer_private, assign_private}
use simpwire.Peer.Objects.{Objects, new_private, load, fill}
use simpwire.Peer.Objects.Values.{Values, set_copied, copied}
use simpwire.Peer.Objects.Ownership.{Valid, view, ℕ-cases, Rebound, Rebound-Valid, Rebound-view}

-- The outcome on objects is that on values: the same values in a valid heap, or no outcome on both
-- sides.
abbrev pub Agrees : Option Values → Result Objects → Type 0
Agrees none (ok k) = ⊥
Agrees none (fault e) = Unit {0}
Agrees (some v) (ok k) = Valid k × (view k ≡ v)
Agrees (some v) (fault e) = ⊥

-- The value of a variable, by what the variable is.
pub view-none : (h : Objects) (x : ℕ) → h.variable x ≡ none → view h x ≡ none
unfolding view
view-none h x e = rw e refl

pub view-null : (h : Objects) (x : ℕ) → h.variable x ≡ some none → view h x ≡ some none
unfolding view
view-null h x e = rw e refl

pub view-some :
    (h : Objects) (x a : ℕ) → h.variable x ≡ some (some a) → view h x ≡ some (h.private_at a)
unfolding view
view-some h x a e = rw e refl

-- What `x` owned is gone, and nothing else has changed.
pub record Freed (x : ℕ) (h k : Objects) : Type 0 where
  pub stays : k.next ≡ h.next
  pub same_variables : k.variable ≡ h.variable
  pub freed : (a : ℕ) → h.variable x ≡ some (some a) → k.private_at a ≡ none
  pub kept : (a : ℕ) → h.variable x ≢ some (some a) → k.private_at a ≡ h.private_at a

-- A new object, bound to `x`, with the value `p`.
abbrev pub filled : ℕ → PeerPrivate → Objects → Objects
filled x p k = record k {
  private_at = update (update k.private_at k.next (some new_peer_private)) k.next (some p);
  next = suc k.next;
  variable = update k.variable x (some (some k.next));
}

filled-Rebound :
    (x : ℕ) (p : PeerPrivate) (h k : Objects) → Valid h → Freed x h k → Rebound x p h (filled x p k)
filled-Rebound x p h k v f = record {
  advanced = ap suc f.stays;
  here = rw (==-self) (ap (λ a. some (some a)) f.stays);
  elsewhere = λ y other. rw (==-ne other) (ap (λ m. m y) f.same_variables);
  filled = rw (← f.stays, ==-self) refl;
  freed = λ a own. rw (==-ne (new a own)) (f.freed a own);
  kept = λ a old kept. rw (==-ne (λ e. old (e ∙ f.stays))) (f.kept a kept);
}
  where
    new : (a : ℕ) → h.variable x ≡ some (some a) → a ≢ k.next
    new a own = omega (arith, f.stays, v.below x a own)

pub Rebound-Agrees :
    (x : ℕ) (p : PeerPrivate) (h k : Objects)
    → Valid h
    → Rebound x p h k
    → Agrees (some (update (view h) x (some (some p)))) (ok k)
Rebound-Agrees x p h k v r = (Rebound-Valid x p h k v r, fun_ext (Rebound-view x p h k v r))

assign_private_new : (p : PeerPrivate) → assign_private new_peer_private p ≡ p
unfolding assign_private
assign_private_new p = refl

fill_self : (x : ℕ) (k : Objects) → fill x x k ≡ ok (filled x new_peer_private k)
unfolding fill new_private load assign_private
fill_self x k = ground arith

fill-none : (x y : ℕ) (k : Objects) → y ≢ x → k.variable y ≡ none → fill x y k ≡ fault no_object
unfolding fill new_private load
fill-none x y k other e = ground arith

fill-null :
    (x y : ℕ) (k : Objects) → y ≢ x → k.variable y ≡ some none → fill x y k ≡ fault null_pointer
unfolding fill new_private load
fill-null x y k other e = ground arith

fill-other :
    (x y b : ℕ) (q : PeerPrivate) (k : Objects)
    → y ≢ x
    → k.variable y ≡ some (some b)
    → b ≢ k.next
    → k.private_at b ≡ some q
    → fill x y k ≡ ok (filled x q k)
unfolding fill new_private load assign_private
fill-other x y b q k other e old there = ground arith

agrees :
    {o o' : Option Values} {r r' : Result Objects} → o ≡ o' → r ≡ r' → Agrees o' r' → Agrees o r
agrees e f a = rw (e, f) a

set_copied_self :
    (x : ℕ) (v : Values) → set_copied x x v ≡ some (update v x (some (some new_peer_private)))
unfolding set_copied copied
set_copied_self x v = ground arith

set_copied-none : (x y : ℕ) (v : Values) → y ≢ x → v y ≡ none → set_copied x y v ≡ none
unfolding set_copied copied
set_copied-none x y v other e = ground arith

set_copied-null : (x y : ℕ) (v : Values) → y ≢ x → v y ≡ some none → set_copied x y v ≡ none
unfolding set_copied copied
set_copied-null x y v other e = ground arith

set_copied-some :
    (x y : ℕ) (p : PeerPrivate) (v : Values)
    → y ≢ x
    → v y ≡ some (some p)
    → set_copied x y v ≡ some (update v x (some (some p)))
unfolding set_copied copied
set_copied-some x y p v other e = ground arith

pub fill-Agrees :
    (x y : ℕ) (h k : Objects)
    → Valid h
    → Freed x h k
    → Agrees (set_copied x y (view h)) (fill x y k)
fill-Agrees x y h k v f = elim (ℕ-cases y x) [
  | inl same ↦
      agrees (ap (λ z. set_copied x z (view h)) same ∙ set_copied_self x (view h))
        (ap (λ z. fill x z k) same ∙ fill_self x k)
        (Rebound-Agrees x new_peer_private h (filled x new_peer_private k) v
          (filled-Rebound x new_peer_private h k v f))
  | inr other ↦ go other (h.variable y) refl
]
  where
    now : (o : Option (Option ℕ)) → h.variable y ≡ o → k.variable y ≡ o
    now o e = ap (λ m. m y) f.same_variables ∙ e

    there :
        (b : ℕ) (q : PeerPrivate)
        → y ≢ x
        → h.variable y ≡ some (some b)
        → h.private_at b ≡ some q
        → k.private_at b ≡ some q
    there b q other e full = f.kept b (λ own. other (v.apart y x b e own)) ∙ full

    go :
        y ≢ x
        → (o : Option (Option ℕ)) → h.variable y ≡ o
        → Agrees (set_copied x y (view h)) (fill x y k)
    go other none e =
        agrees (set_copied-none x y (view h) other (view-none h y e))
          (fill-none x y k other (now none e)) tt
    go other (some none) e =
        agrees (set_copied-null x y (view h) other (view-null h y e))
          (fill-null x y k other (now (some none) e)) tt
    go other (some (some b)) e = elim (Option-cases (h.private_at b)) [
      | inl empty ↦ absurd (v.lives y b e empty)
      | inr (q, full) ↦
          agrees (set_copied-some x y q (view h) other (view-some h y b e ∙ ap some full))
            (fill-other x y b q k other (now (some (some b)) e)
              (omega (arith, f.stays, v.below y b e)) (there b q other e full))
            (Rebound-Agrees x q h (filled x q k) v (filled-Rebound x q h k v f))
    ]
