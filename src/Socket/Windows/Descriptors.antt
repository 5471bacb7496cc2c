-- ===== src/Socket/Windows/Descriptors.antt =====
-- src/Socket.cpp, as it is compiled on Windows: no method loses a file descriptor, also where one
-- cannot be made non-blocking.
use simpwire.Prelude.{ℕ, Bool, true, ◌≡◌, refl, Option, none, some, List, [], ◌∷◌, ◌==◌, to_string}
use simpwire.Common.{IpVersion}
use simpwire.Socket.Os.{Fd}
use simpwire.Socket.State.{Socket, M, sys_, close}
use simpwire.Socket.Opening.{family_of, bind_and_listen, listen_end}
use simpwire.Socket.Descriptors.{
  Descriptors, Held, Accounts, Accounts-trans, Accounts-same, Accounts-Quiet, Accounts-if,
  close-Accounts, close-others, quiet,
}
use simpwire.Socket.Descriptors.Calls.{socket-Accounts}
use simpwire.Socket.Descriptors.Servers.Listening.{
  Continues, bind_and_listen-opened, listen_end-Quiet,
}
use simpwire.Socket.Windows.{WinOs, listen_bound, listen_opened, listen_on, listen_resolved, listen}

-- ioctlsocket opens and closes nothing.
abbrev pub ControlKeeps : (win : WinOs) → Descriptors win.os → Type 0
ControlKeeps win d =
    (fd : Fd) (w : win.os.World) (n : ℕ) → d.opened (win.ioctlsocket fd w).1 n ≡ d.opened w n

module _ (win : WinOs) (d : Descriptors win.os) (control : ControlKeeps win d) where
  -- A descriptor is given up, and the loop goes on.
  give_up-Accounts :
      (m : ℕ) (next : M win.os.World Bool) (s : Socket) (w : win.os.World)
      → Continues win.os d next
      → Accounts win.os d
          (some m)
          w
          (next (record s { socket_fd = none }) (win.os.close (some m) w)).1.socket_fd
          (next (record s { socket_fd = none }) (win.os.close (some m) w)).2
  give_up-Accounts m next s w go_on =
      Accounts-trans win.os d (record { held = tt; same = close-others win.os d (some m) w })
        (go_on (record s { socket_fd = none }) (win.os.close (some m) w) refl)

  listen_bound-Accounts :
      (port m : ℕ) (next : M win.os.World Bool) (s : Socket) (w : win.os.World)
      → s.socket_fd ≡ some m
      → d.opened w m ≡ true
      → Continues win.os d next
      → Accounts win.os d
          (some m)
          w
          (listen_bound win port (some m) next s w).1.socket_fd
          (listen_bound win port (some m) next s w).2
  unfolding listen_bound
  listen_bound-Accounts port m next s w e h go_on =
      let (nonblocking, w') = win.ioctlsocket (some m) w in
      Accounts-if win.os d nonblocking _ _ s w'
        (λ _. Accounts-same win.os d (some m) s.socket_fd w w' h e (control (some m) w))
        λ _.
          Accounts-trans win.os d
            (Accounts-same win.os d (some m) (some m) w w' h refl (control (some m) w))
            (give_up-Accounts m next s w' go_on)

  listen_opened-Accounts :
      (port : ℕ) (a : win.os.Address) (fd : Fd) (next : M win.os.World Bool) (s : Socket)
      (w : win.os.World)
      → s.socket_fd ≡ fd
      → Held win.os d fd w
      → Continues win.os d next
      → Accounts win.os d fd w
          (listen_opened win port a fd next s w).1.socket_fd
          (listen_opened win port a fd next s w).2
  unfolding listen_opened
  listen_opened-Accounts port a none next s w e h go_on = go_on s w e
  listen_opened-Accounts port a (some m) next s w e h go_on =
      let (bound, w') = bind_and_listen win.os (some m) a w in
      let tried =
        Accounts-same win.os d (some m) (some m) w w' h refl
          (bind_and_listen-opened win.os d (some m) a w) in
      Accounts-if win.os d bound _ _ s w'
        (λ _.
          Accounts-trans win.os d tried (listen_bound-Accounts port m next s w' e tried.held go_on))
        λ _. Accounts-trans win.os d tried (give_up-Accounts m next s w' go_on)

  listen_on-Accounts :
      (port : ℕ) (addresses : List win.os.Address)
      → Continues win.os d (listen_on win port addresses)
  unfolding listen_on
  listen_on-Accounts port [] s w e = rw e (record { held = tt; same = λ n. refl })
  listen_on-Accounts port (a ∷ rest) s w e =
      let fd = (win.os.socket a w).0 in
      let w' = (win.os.socket a w).1 in
      let begun = socket-Accounts win.os d a w fd refl in
      Accounts-trans win.os d begun (
        listen_opened-Accounts port a fd (listen_on win port rest) (record s { socket_fd = fd }) w'
          refl begun.held (listen_on-Accounts port rest))

  listen_resolved-Accounts :
      (port : ℕ) (r : Option (List win.os.Address))
      → Continues win.os d (listen_resolved win port r)
  unfolding listen_resolved
  listen_resolved-Accounts port none s w e = rw e (record { held = tt; same = λ n. refl })
  listen_resolved-Accounts port (some addresses) s w e =
      let tried = listen_on-Accounts port addresses s w e in
      Accounts-trans win.os d tried (
        Accounts-Quiet win.os d (sys_ (win.os.freeaddrinfo addresses))
          (listen_on win port addresses s w).1 (listen_on win port addresses s w).2
          (search (quiet, d.freeaddrinfo)) tried.held)

  pub listen-Accounts :
      (port : ℕ) (version : IpVersion) (s : Socket) (w : win.os.World)
      → Accounts win.os d s.socket_fd w
          (listen win port version s w).1.socket_fd
          (listen win port version s w).2
  unfolding listen close
  listen-Accounts port version s w =
      let s' = (close win.os s w).1 in
      let w' = (close win.os s w).2 in
      let (r, w'') =
        win.os.getaddrinfo none (to_string port)
          (record { family = family_of version; passive = true }) w' in
      let closed = close-Accounts win.os d s w in
      let looked = Accounts-same win.os d none none w' w'' tt refl (d.getaddrinfo _ _ _ w') in
      let tried =
        Accounts-trans win.os d closed
          (Accounts-trans win.os d looked (listen_resolved-Accounts port r s' w'' refl)) in
      let (success, t, u) = listen_resolved win port r s' w'' in
      Accounts-if win.os d (port == 0) _ _ s' w' (λ _. closed)
        λ _. Accounts-trans win.os d tried (
          Accounts-Quiet win.os d (listen_end win.os success) t u
            (listen_end-Quiet win.os d success) tried.held)
