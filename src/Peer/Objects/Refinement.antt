-- ===== src/Peer/Objects/Refinement.antt =====
-- Peer objects implement values: every command on objects does what the command on values says.
use simpwire.Prelude.{
  ℕ, ◌≡◌, ◌≢◌, refl, sym, ◌∙◌, ap, subst, fun_ext, Option, none, some, List, [], ◌∷◌, arith, inl,
  inr, ==-self, ==-ne, Option-cases,
}
use simpwire.Store.{Result, ok, fault, update}
use simpwire.PeerPrivate.{PeerPrivate, new_peer_private}
use simpwire.Peer.Objects.{
  Objects, delete_private, new_private, unused, pointer, construct, copy_construct, assign,
  move_construct, destruct, write,
}
use simpwire.Peer.Objects.Values.{Values, Command, execute, execute_all, specify, specify_all}
use simpwire.Peer.Objects.Ownership.{Valid, view, behind, Rebound}
use simpwire.Peer.Objects.Changes.{
  Released, Released-Valid, Released-view, Moved, Moved-Valid, Moved-view, Written, Written-Valid,
  Written-view,
}
use simpwire.Peer.Objects.Filling.{
  Agrees, view-none, view-null, view-some, Freed, Rebound-Agrees, fill-Agrees,
}
use simpwire.Peer.Objects.Refinement.Copies.{
  view_bound, construct-Agrees, copy_construct-Agrees, assign-Agrees, destruct-Agrees,
}
pub mod Copies

moved-Agrees :
    (x y : ℕ) (p : Option ℕ) (h : Objects)
    → Valid h
    → h.variable x ≡ none
    → h.variable y ≡ some p
    → Agrees
        (some (update (update (view h) x (some (behind h.private_at p))) y (some none)))
        (ok (record h { variable = update (update h.variable x (some p)) y (some none) }))
moved-Agrees x y p h v e f =
    let apart : x ≢ y = λ same. ground arith in
    let k : Objects = record h { variable = update (update h.variable x (some p)) y (some none) } in
    let r : Moved x y h k = record {
      stays = refl;
      same_heap = refl;
      there = rw (==-ne apart, ==-self) (sym f);
      left = rw (==-self) refl;
      elsewhere = λ z other other'. rw (==-ne other', ==-ne other) refl;
    } in
    (
      Moved-Valid x y h k v r e apart,
      rw (← view_bound h y p f) (fun_ext (Moved-view x y h k v r e apart)),
    )

move_construct-Agrees :
    (x y : ℕ) (h : Objects)
    → Valid h
    → Agrees (specify (Command.move_construct x y) (view h)) (move_construct x y h)
unfolding move_construct unused pointer specify
move_construct-Agrees x y h v = elim (Option-cases (h.variable x)) [
  | inl e ↦ elim (Option-cases (h.variable y)) [
    | inl f ↦
        rw (e, f, view-none h x e, view-none h y f, specify, move_construct, unused, pointer) tt
    | inr (p, f) ↦
        rw (e, f, view-none h x e, view_bound h y p f, specify, move_construct, unused, pointer)
          (moved-Agrees x y p h v e f)
  ]
  | inr (p, e) ↦ rw (e, view_bound h x p e, specify, move_construct, unused) tt
]

write-Agrees :
    (x : ℕ) (f : PeerPrivate → PeerPrivate) (h : Objects)
    → Valid h
    → Agrees (specify (Command.write x f) (view h)) (write x f h)
unfolding write pointer specify
write-Agrees x f h v = go (h.variable x) refl
  where
    go :
        (o : Option (Option ℕ))
        → h.variable x ≡ o
        → Agrees (specify (Command.write x f) (view h)) (write x f h)
    go none e = rw (e, view-none h x e, specify, write, pointer) tt
    go (some none) e = rw (e, view-null h x e, specify, write, pointer) tt
    go (some (some a)) e = elim (Option-cases (h.private_at a)) [
      | inl empty ↦ absurd (v.lives x a e empty)
      | inr (p, full) ↦
          let k : Objects = record h { private_at = update h.private_at a (some (f p)) } in
          let r : Written x a (f p) h k = record {
            stays = refl;
            own = e;
            same_variables = refl;
            now = rw (==-self) refl;
            kept = λ b other. rw (==-ne other) refl;
          } in
          rw (e, view-some h x a e, full, specify, write, pointer)
            (Written-Valid x a (f p) h k v r, fun_ext (Written-view x a (f p) h k v r))
    ]

execute-Agrees : (c : Command) (h : Objects) → Valid h → Agrees (specify c (view h)) (execute c h)
unfolding execute
execute-Agrees (Command.construct x) h v = construct-Agrees x h v
execute-Agrees (Command.copy_construct x y) h v = copy_construct-Agrees x y h v
execute-Agrees (Command.assign x y) h v = assign-Agrees x y h v
execute-Agrees (Command.move_construct x y) h v = move_construct-Agrees x y h v
execute-Agrees (Command.destruct x) h v = destruct-Agrees x h v
execute-Agrees (Command.write x f) h v = write-Agrees x f h v

then-Agrees :
    (cs : List Command) (o : Option Values) (r : Result Objects)
    → Agrees o r
    → ((k : Objects) → Valid k → Agrees (specify_all cs (view k)) (execute_all cs k))
    → Agrees
        (elim o [ none ↦ none | some v ↦ specify_all cs v ])
        (elim r [ fault e ↦ fault e | ok k ↦ execute_all cs k ])
then-Agrees cs none (ok k) a next = absurd a
then-Agrees cs none (fault e) a next = tt
then-Agrees cs (some v) (ok k) (valid, same) next =
    subst (λ w. Agrees (specify_all cs w) (execute_all cs k)) same (next k valid)
then-Agrees cs (some v) (fault e) a next = absurd a

-- From a valid heap, any list of commands on Peer objects has the outcome that the same list has
-- on values: it ends with a fault exactly if some command uses an object wrongly, and otherwise in
-- a valid heap with the same values.
pub execute_all-specify_all :
    (cs : List Command) (h : Objects)
    → Valid h
    → Agrees (specify_all cs (view h)) (execute_all cs h)
unfolding execute_all specify_all
execute_all-specify_all [] h v = (v, refl)
execute_all-specify_all (c ∷ cs) h v =
    then-Agrees cs (specify c (view h)) (execute c h) (execute-Agrees c h v)
      λ k valid. execute_all-specify_all cs k valid
