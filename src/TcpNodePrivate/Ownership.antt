-- ===== src/TcpNodePrivate/Ownership.antt =====
-- How the changes of the map of peers keep each socket with its one owner.
use simpwire.Prelude.{
  ◌==◌, ℕ, ◌≤◌, ◌<◌, ◌≡◌, ◌≢◌, refl, true, Option, none, some, [], ◌∷◌, arith, inl, inr, Bool-cases,
  ap, ==-self, ==-ne, sym, ◌∙◌, ◌⊎◌, ap,
}
use simpwire.ISocket.{ISocket}
use simpwire.Store.{Store}
use simpwire.PeerPrivate.{PeerPrivate, schedule_delete}
use simpwire.TcpNodePrivate.State.{PeerList}
use simpwire.TcpNodePrivate.Invariant.{HasSocket, Sound, Unshared, Owned}
use simpwire.TcpNodePrivate.Map.{find, erase, modify_at}
use simpwire.TcpNodePrivate.Requests.{schedule_all}
use simpwire.TcpNodePrivate.Remove.{next_scheduled}
pub use simpwire.TcpNodePrivate.Ownership.Keys.{
  SameOwner, Tracks, Tracks-schedule_all, Tracks-modify_at, Owned-Tracks, Unshared-above,
  Unshared-find,
}
use simpwire.TcpNodePrivate.Ownership.Keys.{
  Unshared-erase, next_scheduled_head, next_scheduled-Unshared,
}
pub mod Keys

module _ {I : ISocket} where
  -- Every object of the one store but `a` is in the other.
  pub record Except (a : ℕ) (m n : Store I) : Type 0 where
    pub keeps : (b : ℕ) → b ≢ a → m.cell b ≢ none → n.cell b ≢ none
    pub grows : m.next ≤ n.next

  pub next_scheduled-Sound :
      (m : Store I) (l c k : ℕ) (p : PeerPrivate) (ps : PeerList)
      → next_scheduled ps ≡ some (k, p)
      → Owned m l c ps
      → Sound m l c k p
  unfolding next_scheduled
  next_scheduled-Sound m l c k p [] e o = cc
  next_scheduled-Sound m l c k p ((i, q) ∷ ps) e o = elim (next_scheduled_head i k q p ps e) [
    | inl (d, ik, qp) ↦ rw (← ik, ← qp) o.0
    | inr r ↦ next_scheduled-Sound m l c k p ps r o.2
  ]

  HasSocket-Except :
      (m n : Store I) (l a : ℕ) (sock : Option ℕ)
      → Except a m n
      → sock ≢ some a
      → HasSocket m l sock
      → HasSocket n l sock
  HasSocket-Except m n l a none x d h = h
  HasSocket-Except m n l a (some b) x d h =
      (x.keeps b (λ e. d (ap some e)) h.0, omega (arith, x.grows), h.2)

  pub Owned-Except :
      (m n : Store I) (l c a j : ℕ) (ps : PeerList)
      → Except a m n
      → Unshared j (some a) ps
      → Owned m l c ps
      → Owned n l c ps
  Owned-Except m n l c a j [] x u o = tt
  Owned-Except m n l c a j ((k, p) ∷ ps) x u o = (
    record {
      own = HasSocket-Except m n l a p.socket x u.1 o.0.own;
      keyed = o.0.keyed;
      positive = o.0.positive;
      counted = o.0.counted;
      valid = o.0.valid;
    },
    o.1,
    Owned-Except m n l c a j ps x u.2 o.2,
  )

  -- The deleted peer takes its socket with it.
  pub Owned-erase :
      (m n : Store I) (l c a k : ℕ) (p : PeerPrivate) (ps : PeerList)
      → next_scheduled ps ≡ some (k, p)
      → p.socket ≡ some a
      → Except a m n
      → Owned m l c ps
      → Owned n l c (erase k ps)
  unfolding next_scheduled erase
  Owned-erase m n l c a k p [] e s x o = tt
  Owned-erase m n l c a k p ((i, q) ∷ ps) e s x o = elim (next_scheduled_head i k q p ps e) [
    | inl (d, ik, qp) ↦
        rw (ik, ==-self, erase) (Owned-Except m n l c a i ps x (rw (← s, ← qp) o.1) o.2)
    | inr r ↦
        let (ki, away) = next_scheduled-Unshared i k q.socket p ps r o.1 in
        rw (==-ne (λ t. ki (sym t)), erase)
          (
            record {
              own = HasSocket-Except m n l a q.socket x (λ t. away (s ∙ sym t)) o.0.own;
              keyed = o.0.keyed;
              positive = o.0.positive;
              counted = o.0.counted;
              valid = o.0.valid;
            },
            Unshared-erase i q.socket k ps o.1,
            Owned-erase m n l c a k p ps r s x o.2,
          )
  ]

-- Either the first peer has the number, or the answer is that of the rest.
pub find_head :
    (j k : ℕ) (q p : PeerPrivate) (ps : PeerList)
    → find k ((j, q) ∷ ps) ≡ some p
    → ((j ≡ k) × (q ≡ p)) ⊎ (find k ps ≡ some p)
unfolding find
find_head j k q p ps e = elim (Bool-cases (j == k)) [
  | inl d ↦ inl (ground arith, ground arith)
  | inr d ↦ inr (ground arith)
]

pub find-Sound :
    {I : ISocket} (m : Store I) (l c k : ℕ) (p : PeerPrivate) (ps : PeerList)
    → Owned m l c ps
    → find k ps ≡ some p
    → Sound m l c k p
unfolding find
find-Sound m l c k p [] o e = cc
find-Sound m l c k p ((j, q) ∷ ps) o e = elim (find_head j k q p ps e) [
  | inl (jk, qp) ↦ rw (← jk, ← qp) o.0
  | inr r ↦ find-Sound m l c k p ps o.2 r
]
