-- ===== src/Socket/Windows/Balance.antt =====
-- src/Socket.cpp, as it is compiled on Windows: connecting, accepting and receiving lose no file
-- descriptor.
use simpwire.Prelude.{
  ℕ, true, false, ◌&&◌, ◌||◌, not, ◌≡◌, refl, ◌∙◌, Option, none, some, List, [], ◌∷◌, Text, ◌==◌,
  if◌then◌else◌, arith, to_string, Option-cases, inl, inr,
}
use simpwire.Common.{IpVersion}
use simpwire.ISocket.{Bytes, ReceiveResult}
use simpwire.Socket.Os.{Fd, unspec}
use simpwire.Socket.State.{
  Socket, pure, ◌>>=◌, ◌>>◌, gets, modify, asks, sys, sys_, set_errno, clear_errno, get_last_errno,
  close, new_socket,
}
use simpwire.Socket.Transfer.{receive_end}
use simpwire.Socket.Descriptors.{
  Descriptors, Held, is_fd, Accounts, Accounts-trans, Accounts-same, Accounts-Quiet, Accounts-if,
  Quiet, Quiet-sys, close-Accounts, quiet,
}
use simpwire.Socket.Descriptors.Calls.{socket-Accounts, receive_end-Accounts}
use simpwire.Socket.Descriptors.Servers.{
  Accepts, Accepts-if, Held-more, opened-others, refused-Accepts,
}
use simpwire.Socket.Descriptors.Servers.Listening.{Continues}
use simpwire.Socket.Windows.{
  WinOs, listen, connect_pending, connect_address, connect_resolved, connect, accept, receive,
}
use simpwire.Socket.State.{destroy}
use simpwire.Socket.Transfer.{send}
use simpwire.Socket.Descriptors.Calls.{send-Quiet}
use simpwire.Socket.Descriptors.Balance.{destroy-opened}
use simpwire.Socket.Windows.Descriptors.{ControlKeeps, listen-Accounts}

module _ (win : WinOs) (d : Descriptors win.os) (control : ControlKeeps win d) where
  pending-Quiet : (fd : Fd) (a : win.os.Address) → Quiet win.os d (connect_pending win fd a)
  unfolding connect_pending
  pending-Quiet fd a = search (quiet, d.sleep_for, d.connect, d.get_so_error) depth 12

  connecting-Quiet :
      (fd : Fd) (a : win.os.Address)
      → Quiet win.os d (do
        nonblocking ← sys (win.ioctlsocket fd)
        if nonblocking
            then (do
              conn ← sys (win.os.connect fd a)
              n ← asks win.os.errno
              if conn
                  then pure true
                  else if n == win.wsaewouldblock
                  then connect_pending win fd a
                  else pure false)
            else pure false)
  connecting-Quiet fd a = search (quiet, control, d.connect, pending-Quiet) depth 12

  connect_resolved-Accounts :
      (r : Option (List win.os.Address)) → Continues win.os d (connect_resolved win r)
  unfolding connect_resolved connect_address
  connect_resolved-Accounts none s w e = rw e (record { held = tt; same = λ n. refl })
  connect_resolved-Accounts (some []) s w e = rw e (record { held = tt; same = λ n. refl })
  connect_resolved-Accounts (some (a ∷ rest)) s w e =
      let fd = (win.os.socket a w).0 in
      let w' = (win.os.socket a w).1 in
      let begun = socket-Accounts win.os d a w fd refl in
      let tried = Accounts-trans win.os d begun (
        Accounts-Quiet win.os d _ (record s { socket_fd = fd }) w' (connecting-Quiet fd a)
          begun.held) in
      Accounts-trans win.os d tried (
        Accounts-Quiet win.os d (sys_ (win.os.freeaddrinfo (a ∷ rest)))
          (connect_address win a s w).1 (connect_address win a s w).2
          (search (quiet, d.freeaddrinfo)) tried.held)

  connect-Accounts :
      (ip : Text) (port : ℕ) (s : Socket) (w : win.os.World)
      → Accounts win.os d s.socket_fd w
          (connect win ip port s w).1.socket_fd
          (connect win ip port s w).2
  unfolding connect close set_errno
  connect-Accounts ip port s w =
      let s' = (close win.os s w).1 in
      let w' = (close win.os s w).2 in
      let (r, w'') =
        win.os.getaddrinfo (some ip) (to_string port) (record { family = unspec; passive = false })
          w' in
      let looked = Accounts-same win.os d none none w' w'' tt refl (d.getaddrinfo _ _ _ w') in
      let before = Accounts-trans win.os d (close-Accounts win.os d s w) looked in
      let tried = Accounts-trans win.os d before (connect_resolved-Accounts r s' w'' refl) in
      let (success, t, u) = connect_resolved win r s' w'' in
      Accounts-if win.os d success _ _ t u
        (λ _. Accounts-trans win.os d tried (Accounts-Quiet win.os d _ t u quiet_end tried.held))
        λ _. Accounts-trans win.os d tried (close-Accounts win.os d t u)
    where
      quiet_end : Quiet win.os d (do modify λ s. record s { connected = true }; clear_errno)
      quiet_end = search quiet

  received-Accounts :
      (s : Socket) (w : win.os.World) (size : ℕ) (r : ReceiveResult)
      → Held win.os d s.socket_fd w
      → Accounts win.os d s.socket_fd w
          (receive_end win.os r s (win.os.recv s.socket_fd size w).1).1.socket_fd
          (receive_end win.os r s (win.os.recv s.socket_fd size w).1).2
  received-Accounts s w size r h =
      let polled =
        Accounts-Quiet win.os d (sys (win.os.recv s.socket_fd size)) s w
          (Quiet-sys win.os d (win.os.recv s.socket_fd size) (d.recv s.socket_fd size)) h in
      Accounts-trans win.os d polled (receive_end-Accounts win.os d r s _ polled.held)

  receive-Accounts :
      (old : Bytes) (s : Socket) (w : win.os.World)
      → Held win.os d s.socket_fd w
      → Accounts win.os d s.socket_fd w (receive win old s w).1.socket_fd (receive win old s w).2
  unfolding receive
  receive-Accounts old s w h =
      Accounts-if win.os d s.listener _ _ s w
        (λ _. receive_end-Accounts win.os d ReceiveResult.error_is_listener s w h)
        λ _.
          Accounts-if win.os d (not s.connected) _ _ s w
            (λ _. receive_end-Accounts win.os d ReceiveResult.error_no_connection s w h)
            λ _. received-Accounts s w s.receive_buffer_size _ h

  accepted-Accepts :
      (s : Socket) (w : win.os.World) (m : ℕ) (u : Socket)
      → Held win.os d s.socket_fd w
      → (win.os.accept s.socket_fd w).0 ≡ some m
      → u.socket_fd ≡ some m
      → Accepts win.os d s.socket_fd w
          (some u)
          s
          (win.ioctlsocket (some m) (win.os.accept s.socket_fd w).1).1
  accepted-Accepts s w m u h e f =
      let w' = (win.ioctlsocket (some m) (win.os.accept s.socket_fd w).1).1 in
      let (fresh, opens) = d.accept_one s.socket_fd w m e in
      let all : (n : ℕ) → d.opened w' n ≡ (d.opened w n || (n == m)) =
        λ n. control (some m) _ n ∙ opens n in
      record {
        kept = refl;
        held = Held-more win.os d s.socket_fd w w' h λ n before. ground (arith, all n, before);
        new = rw f (ground (arith, all m));
        same = rw f (opened-others win.os d s.socket_fd m w w' h fresh all);
      }

  accept-Accepts :
      (s : Socket) (w : win.os.World)
      → Held win.os d s.socket_fd w
      → Accepts win.os d s.socket_fd w (accept win s w).0 (accept win s w).1 (accept win s w).2
  unfolding accept set_errno clear_errno get_last_errno new_socket
  accept-Accepts s w h =
      Accepts-if win.os d s.listener _ _ s w
        (λ _. elim (Option-cases (win.os.accept s.socket_fd w).0) [
          | inl f ↦
              rw (◌>>=◌, gets, sys, f)
                (refused-Accepts win.os d s.socket_fd w _ _ (ground arith) h
                  λ n. ground (arith, d.accept_nothing s.socket_fd w f n))
          | inr (m, f) ↦ rw (◌>>=◌, gets, sys, f) (accepted-Accepts s w m _ h f refl)
        ])
        λ _. refused-Accepts win.os d s.socket_fd w w s refl h λ n. refl

  -- On Windows, whatever the system answers, for a socket whose descriptor, if it has one, is open:
  -- after each of `listen`, `connect`, `close`, `receive` and `send`, whether it succeeds or fails,
  -- the socket's descriptor, if it has one, is open, and the open descriptors that are not the
  -- socket's are the same as before. `accept` adds the descriptor of the socket that it returns, if
  -- any, and no other, and the listener keeps its own; and the destructor closes the socket's
  -- descriptor and no other.
  pub windows_methods-Accounts :
      (s : Socket) (w : win.os.World) (port : ℕ) (ipv : IpVersion) (ip : Text) (old bytes : Bytes)
      → Held win.os d s.socket_fd w
      → Accounts win.os d s.socket_fd w
          (listen win port ipv s w).1.socket_fd
          (listen win port ipv s w).2
        × Accounts win.os d s.socket_fd w
            (connect win ip port s w).1.socket_fd
            (connect win ip port s w).2
        × Accounts win.os d s.socket_fd w (close win.os s w).1.socket_fd (close win.os s w).2
        × Accounts win.os d s.socket_fd w (receive win old s w).1.socket_fd (receive win old s w).2
        × Accounts win.os d s.socket_fd w
            (send win.os bytes s w).1.socket_fd
            (send win.os bytes s w).2
        × Accepts win.os d s.socket_fd w (accept win s w).0 (accept win s w).1 (accept win s w).2
        × ((n : ℕ) → d.opened (destroy win.os s w) n ≡ (d.opened w n && not (is_fd s.socket_fd n)))
  windows_methods-Accounts s w port ipv ip old bytes h = (
    listen-Accounts win d control port ipv s w,
    connect-Accounts ip port s w,
    close-Accounts win.os d s w,
    receive-Accounts old s w h,
    Accounts-Quiet win.os d (send win.os bytes) s w (send-Quiet win.os d bytes) h,
    accept-Accepts s w h,
    destroy-opened win.os d s w,
  )
