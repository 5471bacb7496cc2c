-- ===== src/Peer/Objects/Refinement/Copies.antt =====
-- Construction, copies, assignment and destruction on the heap agree with those of values.
use simpwire.Prelude.{
  ℕ, ◌≡◌, refl, sym, ◌∙◌, ap, fun_ext, Option, none, some, arith, inl, inr, ==-self, ==-ne,
  Option-cases,
}
use simpwire.Store.{ok, update}
use simpwire.PeerPrivate.{new_peer_private}
use simpwire.Peer.Objects.{
  Objects, delete_private, new_private, unused, pointer, construct, copy_construct, assign,
  destruct,
}
use simpwire.Peer.Objects.Values.{Command, specify}
use simpwire.Peer.Objects.Ownership.{Valid, view, behind, Rebound}
use simpwire.Peer.Objects.Changes.{Released, Released-Valid, Released-view}
use simpwire.Peer.Objects.Filling.{Agrees, view-none, Freed, Rebound-Agrees, fill-Agrees}

unused-Freed : (x : ℕ) (h : Objects) → h.variable x ≡ none → Freed x h h
unused-Freed x h e = record {
  stays = refl;
  same_variables = refl;
  freed = λ a own. cc;
  kept = λ a kept. refl;
}

pub view_bound :
    (h : Objects) (x : ℕ) (p : Option ℕ)
    → h.variable x ≡ some p
    → view h x ≡ some (behind h.private_at p)
unfolding view
view_bound h x p e = rw e refl

constructed-Rebound :
    (x : ℕ) (h : Objects)
    → Valid h
    → h.variable x ≡ none
    → Rebound x new_peer_private h
        (record (new_private h).1 { variable = update h.variable x (some (some h.next)) })
unfolding new_private
constructed-Rebound x h v e = record {
  advanced = refl;
  here = rw (==-self) refl;
  elsewhere = λ y other. rw (==-ne other) refl;
  filled = rw (==-self) refl;
  freed = λ a own. cc;
  kept = λ a old kept. rw (==-ne old) refl;
}

pub construct-Agrees :
    (x : ℕ) (h : Objects)
    → Valid h
    → Agrees (specify (Command.construct x) (view h)) (construct x h)
unfolding construct unused specify
construct-Agrees x h v = elim (Option-cases (h.variable x)) [
  | inl e ↦
      rw (e, view-none h x e, specify, construct, unused)
        (Rebound-Agrees x new_peer_private h _ v (constructed-Rebound x h v e))
  | inr (p, e) ↦ rw (e, view_bound h x p e, specify, construct, unused) tt
]

pub copy_construct-Agrees :
    (x y : ℕ) (h : Objects)
    → Valid h
    → Agrees (specify (Command.copy_construct x y) (view h)) (copy_construct x y h)
unfolding copy_construct unused specify
copy_construct-Agrees x y h v = elim (Option-cases (h.variable x)) [
  | inl e ↦
      rw (e, view-none h x e, specify, copy_construct, unused)
        (fill-Agrees x y h h v (unused-Freed x h e))
  | inr (p, e) ↦ rw (e, view_bound h x p e, specify, copy_construct, unused) tt
]

delete-Freed :
    (x : ℕ) (old : Option ℕ) (h : Objects)
    → Valid h
    → h.variable x ≡ some old
    → (k : Objects) × (delete_private old h ≡ ok k) × Freed x h k
unfolding delete_private
delete-Freed x none h v e = (
  h,
  refl,
  record { stays = refl; same_variables = refl; freed = λ a own. cc; kept = λ a kept. refl },
)
delete-Freed x (some a) h v e = elim (Option-cases (h.private_at a)) [
  | inl empty ↦ absurd (v.lives x a e empty)
  | inr (p, full) ↦ (
    record h { private_at = update h.private_at a none },
    rw (full, delete_private) refl,
    record {
      stays = refl;
      same_variables = refl;
      freed = λ b own. ground arith;
      kept = λ b kept. rw (==-ne (λ same. kept (e ∙ ap (λ c. some (some c)) (sym same)))) refl;
    },
  )
]

pub assign-Agrees :
    (x y : ℕ) (h : Objects)
    → Valid h
    → Agrees (specify (Command.assign x y) (view h)) (assign x y h)
unfolding assign pointer specify
assign-Agrees x y h v = elim (Option-cases (h.variable x)) [
  | inl e ↦ rw (e, view-none h x e, specify, assign, pointer) tt
  | inr (old, e) ↦
      let (k, deleted, f) = delete-Freed x old h v e in
      rw (e, view_bound h x old e, specify, assign, pointer, deleted) (fill-Agrees x y h k v f)
]

pub destruct-Agrees :
    (x : ℕ) (h : Objects) → Valid h → Agrees (specify (Command.destruct x) (view h)) (destruct x h)
unfolding destruct pointer specify
destruct-Agrees x h v = elim (Option-cases (h.variable x)) [
  | inl e ↦ rw (e, view-none h x e, specify, destruct, pointer) tt
  | inr (old, e) ↦
      let (k, deleted, f) = delete-Freed x old h v e in
      let k' : Objects = record k { variable = update k.variable x none } in
      let r : Released x h k' = record {
        stays = f.stays;
        here = rw (==-self) refl;
        elsewhere = λ y other. rw (==-ne other) (ap (λ m. m y) f.same_variables);
        freed = f.freed;
        kept = f.kept;
      } in
      rw (e, view_bound h x old e, specify, destruct, pointer, deleted)
        (Released-Valid x h k' v r, fun_ext (Released-view x h k' v r))
]
