-- ===== src/Socket/Descriptors/Servers/Listening.antt =====
-- src/Socket.cpp: what listening does with file descriptors.
use simpwire.Prelude.{
  ℕ, Bool, true, false, ◌≡◌, refl, Option, none, some, List, [], ◌∷◌, ◌==◌, arith, to_string,
}
use simpwire.Common.{IpVersion}
use simpwire.Socket.Os.{Os, Fd}
use simpwire.Socket.State.{Socket, M, sys_, close}
use simpwire.Socket.Opening.{
  set_non_blocking, bind_and_listen, listen_bound, listen_opened, listen_on, listen_resolved,
  listen_end, listen, family_of,
}
use simpwire.Socket.Descriptors.{
  Descriptors, Held, Accounts, Accounts-trans, Accounts-same, Accounts-Quiet, Accounts-if, Quiet,
  close-Accounts, close-others, quiet,
}
use simpwire.Socket.Descriptors.Calls.{set_non_blocking-opened, socket-Accounts}

module _ (os : Os) (d : Descriptors os) where
  pub bind_and_listen-opened :
      (fd : Fd) (a : os.Address) (w : os.World) (n : ℕ)
      → d.opened (bind_and_listen os fd a w).1 n ≡ d.opened w n
  unfolding bind_and_listen
  bind_and_listen-opened fd a w n = ground (
    arith,
    d.set_reuse_address fd w n,
    d.bind fd a (os.set_reuse_address fd w).1 n,
    d.listen fd 20 (os.bind fd a (os.set_reuse_address fd w).1).1 n,
  )

  pub listen_end-Quiet : (success : Bool) → Quiet os d (listen_end os success)
  unfolding listen_end
  listen_end-Quiet true = search quiet
  listen_end-Quiet false = search quiet

  -- What the loop over the addresses goes on with, from a socket without a descriptor.
  abbrev pub Continues : M os.World Bool → Type 0
  Continues next =
      (s : Socket) (w : os.World)
      → s.socket_fd ≡ none
      → Accounts os d none w (next s w).1.socket_fd (next s w).2

  module _
      (unblocks : (m : ℕ) (w : os.World)
        → d.opened w m ≡ true
        → (set_non_blocking os (some m) w).0 ≡ true) where
    listen_bound-Accounts :
        (port m : ℕ) (next : M os.World Bool) (s : Socket) (w : os.World)
        → s.socket_fd ≡ some m
        → d.opened w m ≡ true
        → Accounts os d
            (some m)
            w
            (listen_bound os port (some m) next s w).1.socket_fd
            (listen_bound os port (some m) next s w).2
    unfolding listen_bound
    listen_bound-Accounts port m next s w e h =
        let (nonblocking, w') = set_non_blocking os (some m) w in
        Accounts-if os d nonblocking _ _ s w'
          (λ _.
            Accounts-same os d (some m) s.socket_fd w w' h e
              (set_non_blocking-opened os d (some m) w))
          λ blocks. absurd (ground (arith, unblocks m w h, blocks))

    listen_opened-Accounts :
        (port : ℕ) (a : os.Address) (fd : Fd) (next : M os.World Bool) (s : Socket) (w : os.World)
        → s.socket_fd ≡ fd
        → Held os d fd w
        → Continues next
        → Accounts os d fd w
            (listen_opened os port a fd next s w).1.socket_fd
            (listen_opened os port a fd next s w).2
    unfolding listen_opened
    listen_opened-Accounts port a none next s w e h go_on = go_on s w e
    listen_opened-Accounts port a (some m) next s w e h go_on =
        let (bound, w') = bind_and_listen os (some m) a w in
        let tried =
          Accounts-same os d (some m) (some m) w w' h refl (bind_and_listen-opened (some m) a w) in
        Accounts-if os d bound _ _ s w'
          (λ _. Accounts-trans os d tried (listen_bound-Accounts port m next s w' e tried.held))
          λ _. Accounts-trans os d tried (
            Accounts-trans os d (record { held = tt; same = close-others os d (some m) w' })
              (go_on (record s { socket_fd = none }) (os.close (some m) w') refl))

    listen_on-Accounts :
        (port : ℕ) (addresses : List os.Address) → Continues (listen_on os port addresses)
    unfolding listen_on
    listen_on-Accounts port [] s w e = rw e (record { held = tt; same = λ n. refl })
    listen_on-Accounts port (a ∷ rest) s w e =
        let fd = (os.socket a w).0 in
        let w' = (os.socket a w).1 in
        let begun = socket-Accounts os d a w fd refl in
        Accounts-trans os d begun (
          listen_opened-Accounts port a fd (listen_on os port rest) (record s { socket_fd = fd }) w'
            refl begun.held (listen_on-Accounts port rest))

    listen_resolved-Accounts :
        (port : ℕ) (r : Option (List os.Address)) → Continues (listen_resolved os port r)
    unfolding listen_resolved
    listen_resolved-Accounts port none s w e = rw e (record { held = tt; same = λ n. refl })
    listen_resolved-Accounts port (some addresses) s w e =
        let tried = listen_on-Accounts port addresses s w e in
        Accounts-trans os d tried (
          Accounts-Quiet os d (sys_ (os.freeaddrinfo addresses)) (listen_on os port addresses s w).1
            (listen_on os port addresses s w).2 (search (quiet, d.freeaddrinfo)) tried.held)

    pub listen-Accounts :
        (port : ℕ) (version : IpVersion) (s : Socket) (w : os.World)
        → Accounts os d s.socket_fd w
            (listen os port version s w).1.socket_fd
            (listen os port version s w).2
    unfolding listen close
    listen-Accounts port version s w =
        let s' = (close os s w).1 in
        let w' = (close os s w).2 in
        let (r, w'') =
          os.getaddrinfo none (to_string port)
            (record { family = family_of version; passive = true }) w' in
        let closed = close-Accounts os d s w in
        let looked = Accounts-same os d none none w' w'' tt refl (d.getaddrinfo _ _ _ w') in
        let tried =
          Accounts-trans os d closed
            (Accounts-trans os d looked (listen_resolved-Accounts port r s' w'' refl)) in
        let (success, t, u) = listen_resolved os port r s' w'' in
        Accounts-if os d (port == 0) _ _ s' w' (λ _. closed)
          λ _.
            Accounts-trans os d tried (
              Accounts-Quiet os d (listen_end os success) t u (listen_end-Quiet success) tried.held)
