-- ===== src/Socket/Descriptors/Servers.antt =====
-- src/Socket.cpp: what listening and accepting do with file descriptors.
use simpwire.Prelude.{
  ℕ, Bool, true, false, ◌||◌, ◌≡◌, refl, ◌∙◌, Option, none, some, List, [], ◌∷◌, ◌==◌,
  if◌then◌else◌, arith, to_string, Option-cases, inl, inr,
}
use simpwire.Common.{IpVersion}
use simpwire.Socket.Os.{Os, Fd}
use simpwire.Socket.State.{
  Socket, M, ◌>>=◌, gets, sys, sys_, set_errno, clear_errno, get_last_errno, close, new_socket,
}
use simpwire.Socket.Opening.{
  set_non_blocking, bind_and_listen, listen_bound, listen_opened, listen_on, listen_resolved,
  listen_end, listen, accept, family_of,
}
use simpwire.Socket.Descriptors.{
  Descriptors, Held, others, is_fd, Accounts, Accounts-trans, Accounts-same, Accounts-Quiet,
  Accounts-if, Quiet, close-Accounts, close-others, quiet,
}
use simpwire.Socket.Descriptors.Calls.{set_non_blocking-opened, socket-Accounts}
pub mod Listening

module _ (os : Os) (d : Descriptors os) where
  abbrev pub fd_of : Option Socket → Fd
  fd_of none = none
  fd_of (some t) = t.socket_fd

  -- The listener keeps its descriptor, and the new socket's is the only one that is opened.
  pub record Accepts (fd : Fd) (w : os.World) (r : Option Socket) (t : Socket) (w' : os.World)
      : Type 0 where
    pub kept : t.socket_fd ≡ fd
    pub held : Held os d fd w'
    pub new : Held os d (fd_of r) w'
    pub same : (n : ℕ) → others os d fd w' n ≡ (others os d fd w n || is_fd (fd_of r) n)

  pub Held-more :
      (fd : Fd) (w w' : os.World)
      → Held os d fd w
      → ((n : ℕ) → d.opened w n ≡ true → d.opened w' n ≡ true)
      → Held os d fd w'
  Held-more none w w' h k = tt
  Held-more (some m) w w' h k = k m h

  -- A descriptor that was not open is not the socket's own.
  pub opened-others :
      (fd : Fd) (m : ℕ) (w w' : os.World)
      → Held os d fd w
      → d.opened w m ≡ false
      → ((n : ℕ) → d.opened w' n ≡ (d.opened w n || (n == m)))
      → (n : ℕ) → others os d fd w' n ≡ (others os d fd w n || (n == m))
  opened-others none m w w' h fresh k n = ground (arith, k n)
  opened-others (some j) m w w' h fresh k n = ground (arith, k n)

  pub Accepts-if :
      {fd : Fd} {u : os.World} (b : Bool) (m k : M os.World (Option Socket)) (s : Socket)
      (w : os.World)
      → (b ≡ true → Accepts fd u (m s w).0 (m s w).1 (m s w).2)
      → (b ≡ false → Accepts fd u (k s w).0 (k s w).1 (k s w).2)
      → Accepts fd u
          ((if b then m else k) s w).0
          ((if b then m else k) s w).1
          ((if b then m else k) s w).2
  Accepts-if true m k s w hm hk = hm refl
  Accepts-if false m k s w hm hk = hk refl

  pub refused-Accepts :
      (fd : Fd) (w w' : os.World) (t : Socket)
      → t.socket_fd ≡ fd
      → Held os d fd w
      → ((n : ℕ) → d.opened w' n ≡ d.opened w n)
      → Accepts fd w none t w'
  refused-Accepts fd w w' t e h k = record {
    kept = e;
    held = Held-more fd w w' h λ n before. k n ∙ before;
    new = tt;
    same = λ n. ground (arith, k n);
  }

  accepted-Accepts :
      (s : Socket) (w : os.World) (m : ℕ) (u : Socket)
      → Held os d s.socket_fd w
      → (os.accept s.socket_fd w).0 ≡ some m
      → u.socket_fd ≡ some m
      → Accepts s.socket_fd w
          (some u)
          s
          (set_non_blocking os (some m) (os.accept s.socket_fd w).1).1
  accepted-Accepts s w m u h e f =
      let w' = (set_non_blocking os (some m) (os.accept s.socket_fd w).1).1 in
      let (fresh, opens) = d.accept_one s.socket_fd w m e in
      let all : (n : ℕ) → d.opened w' n ≡ (d.opened w n || (n == m)) =
        λ n. set_non_blocking-opened os d (some m) _ n ∙ opens n in
      record {
        kept = refl;
        held = Held-more s.socket_fd w w' h λ n before. ground (arith, all n, before);
        new = rw f (ground (arith, all m));
        same = rw f (opened-others s.socket_fd m w w' h fresh all);
      }

  pub accept-Accepts :
      (s : Socket) (w : os.World)
      → Held os d s.socket_fd w
      → Accepts s.socket_fd w (accept os s w).0 (accept os s w).1 (accept os s w).2
  unfolding accept set_errno clear_errno get_last_errno new_socket
  accept-Accepts s w h =
      Accepts-if s.listener _ _ s w
        (λ _. elim (Option-cases (os.accept s.socket_fd w).0) [
          | inl f ↦
              rw (◌>>=◌, gets, sys, f)
                (refused-Accepts s.socket_fd w _ _ (ground arith) h
                  λ n. ground (arith, d.accept_nothing s.socket_fd w f n))
          | inr (m, f) ↦ rw (◌>>=◌, gets, sys, f) (accepted-Accepts s w m _ h f refl)
        ])
        λ _. refused-Accepts s.socket_fd w w s refl h λ n. refl
