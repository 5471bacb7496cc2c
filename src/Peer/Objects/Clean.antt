-- ===== src/Peer/Objects/Clean.antt =====
-- Peer objects leave nothing behind.
use simpwire.Prelude.{ℕ, ◌≡◌, refl, ◌∙◌, ap, subst, none, some, List, arith, inl, inr, Option-cases}
use simpwire.Store.{Result, ok, fault}
use simpwire.Peer.Objects.{Objects}
use simpwire.Peer.Objects.Values.{Values, Command, execute_all, specify_all}
use simpwire.Peer.Objects.Ownership.{Valid, view}
use simpwire.Peer.Objects.Filling.{Agrees}
use simpwire.Peer.Objects.Refinement.{execute_all-specify_all}

abbrev pub no_objects : Objects
no_objects = record { private_at = λ a. none; next = 0; variable = λ x. none }

pub no_objects-Valid : Valid no_objects
no_objects-Valid = record {
  lives = λ x a e. cc;
  below = λ x a e. cc;
  apart = λ x y a e f. cc;
  owner = λ a e. absurd (e refl);
}

variable_gone : (h : Objects) (x : ℕ) → view h x ≡ none → h.variable x ≡ none
unfolding view
variable_gone h x e = ground (arith, e)

-- A heap in which no object is left.
abbrev pub Clean : Result Objects → Type 0
Clean (fault e) = ⊥
Clean (ok k) = (a : ℕ) → k.private_at a ≡ none

clean : (v : Values) (r : Result Objects) → Agrees (some v) r → ((x : ℕ) → v x ≡ none) → Clean r
clean v (fault e) a gone = absurd a
clean v (ok k) (valid, same) gone = λ a. elim (Option-cases (k.private_at a)) [
  | inl e ↦ e
  | inr (p, e) ↦
      let (x, own) = valid.owner a λ f. cc in
      let left : k.variable x ≡ none = variable_gone k x (ap (λ m. m x) same ∙ gone x) in
      absurd (ground arith)
]

-- Any list of commands, from no objects at all, that uses no object wrongly and leaves no variable
-- with a value, ends without a fault and with no PeerPrivate left: each was deleted, and none
-- twice.
pub execute_all-Clean :
    (cs : List Command) (v : Values)
    → specify_all cs (view no_objects) ≡ some v
    → ((x : ℕ) → v x ≡ none)
    → Clean (execute_all cs no_objects)
execute_all-Clean cs v e gone =
    clean v (execute_all cs no_objects)
      (subst (λ o. Agrees o (execute_all cs no_objects)) e
        (execute_all-specify_all cs no_objects no_objects-Valid))
      gone
