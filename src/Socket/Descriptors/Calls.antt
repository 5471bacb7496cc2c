-- ===== src/Socket/Descriptors/Calls.antt =====
-- src/Socket.cpp: what the methods do with file descriptors.
use simpwire.Prelude.{
  ℕ, true, false, not, ◌≡◌, refl, ◌∙◌, Option, none, some, List, [], ◌∷◌, Text, ◌==◌, if◌then◌else◌,
  arith, to_string, Option-cases, inl, inr,
}
use simpwire.ISocket.{Bytes, ReceiveResult}
use simpwire.Socket.Os.{Os, Fd, unspec}
use simpwire.Socket.State.{
  Socket, pure, ◌>>=◌, ◌>>◌, modify, asks, sys, sys_, set_errno, clear_errno, close,
}
use simpwire.Socket.Opening.{
  set_non_blocking, connect_pending, connect_address, connect_resolved, connect,
}
use simpwire.Socket.Transfer.{receive, receive_end, send}
use simpwire.Socket.Descriptors.{
  Descriptors, Held, Accounts, Accounts-trans, Quiet, Quiet-sys, Accounts-same, Accounts-Quiet,
  Accounts-if, close-Accounts, quiet,
}

module _ (os : Os) (d : Descriptors os) where
  pub set_non_blocking-opened :
      (fd : Fd) (w : os.World) (n : ℕ) → d.opened (set_non_blocking os fd w).1 n ≡ d.opened w n
  unfolding set_non_blocking
  set_non_blocking-opened none w n = refl
  set_non_blocking-opened (some m) w n = elim (Option-cases (os.get_flags (some m) w).0) [
    | inl e ↦ ground (arith, d.get_flags (some m) w n)
    | inr (flags, e) ↦
        rw (set_non_blocking, e)
          (d.set_flags (some m) _ (os.get_flags (some m) w).1 n ∙ d.get_flags (some m) w n)
  ]

  connect_pending-Quiet : Quiet os d (connect_pending os)
  unfolding connect_pending
  connect_pending-Quiet = search (quiet, d.sleep_for, d.get_so_error) depth 10

  connecting-Quiet :
      (fd : Fd) (address : os.Address)
      → Quiet os d (do
        nonblocking ← sys (set_non_blocking os fd)
        if nonblocking
            then (do
              conn ← sys (os.connect fd address)
              n ← asks os.errno
              if conn
                  then pure true
                  else if n == os.einprogress
                  then connect_pending os
                  else pure false)
            else pure false)
  connecting-Quiet fd address =
      search (quiet, set_non_blocking-opened, d.connect, connect_pending-Quiet) depth 12

  pub send-Quiet : (bytes : Bytes) → Quiet os d (send os bytes)
  unfolding send set_errno clear_errno
  send-Quiet bytes = record {
    fd = λ s w. ground arith;
    opened = λ s w n. ground (arith, d.send s.socket_fd bytes w n);
  }

  pub receive_end-Accounts :
      (r : ReceiveResult) (s : Socket) (w : os.World)
      → Held os d s.socket_fd w
      → Accounts os d s.socket_fd w (receive_end os r s w).1.socket_fd (receive_end os r s w).2
  unfolding receive_end set_errno
  receive_end-Accounts ReceiveResult.error_system s w h = close-Accounts os d s w
  receive_end-Accounts ReceiveResult.ok s w h = Accounts-Quiet os d clear_errno s w (search quiet) h
  receive_end-Accounts ReceiveResult.error_no_connection s w h =
      Accounts-Quiet os d clear_errno s w (search quiet) h
  receive_end-Accounts ReceiveResult.error_is_listener s w h =
      Accounts-Quiet os d clear_errno s w (search quiet) h
  receive_end-Accounts ReceiveResult.error_peer_disconnected s w h =
      Accounts-Quiet os d clear_errno s w (search quiet) h
  receive_end-Accounts ReceiveResult.error_nothing_received s w h =
      Accounts-Quiet os d clear_errno s w (search quiet) h

  received-Accounts :
      (s : Socket) (w : os.World) (size : ℕ) (r : ReceiveResult)
      → Held os d s.socket_fd w
      → Accounts os d s.socket_fd w
          (receive_end os r s (os.recv s.socket_fd size w).1).1.socket_fd
          (receive_end os r s (os.recv s.socket_fd size w).1).2
  received-Accounts s w size r h =
      let polled =
        Accounts-Quiet os d (sys (os.recv s.socket_fd size)) s w
          (Quiet-sys os d (os.recv s.socket_fd size) (d.recv s.socket_fd size)) h in
      Accounts-trans os d polled (receive_end-Accounts r s _ polled.held)

  pub receive-Accounts :
      (old : Bytes) (s : Socket) (w : os.World)
      → Held os d s.socket_fd w
      → Accounts os d s.socket_fd w (receive os old s w).1.socket_fd (receive os old s w).2
  unfolding receive
  receive-Accounts old s w h =
      Accounts-if os d s.listener _ _ s w
        (λ _. receive_end-Accounts ReceiveResult.error_is_listener s w h)
        λ _.
          Accounts-if os d (not s.connected) _ _ s w
            (λ _. receive_end-Accounts ReceiveResult.error_no_connection s w h)
            λ _. received-Accounts s w s.receive_buffer_size _ h

  -- A new descriptor for a socket that has none.
  pub socket-Accounts :
      (a : os.Address) (w : os.World) (r : Fd)
      → (os.socket a w).0 ≡ r
      → Accounts os d none w r (os.socket a w).1
  socket-Accounts a w none e = record {
    held = tt;
    same = λ n. ground (arith, d.socket_nothing a w e n);
  }
  socket-Accounts a w (some m) e = record {
    held = ground (arith, (d.socket_one a w m e).1 m);
    same = λ n. ground (arith, (d.socket_one a w m e).0, (d.socket_one a w m e).1 n);
  }

  -- The one address that `connect` tries.
  connect_address-Accounts :
      (a : os.Address) (s : Socket) (w : os.World)
      → s.socket_fd ≡ none
      → Accounts os d none w (connect_address os a s w).1.socket_fd (connect_address os a s w).2
  unfolding connect_address
  connect_address-Accounts a s w e =
      let fd = (os.socket a w).0 in
      let w' = (os.socket a w).1 in
      let begun = socket-Accounts a w fd refl in
      Accounts-trans os d begun
        (Accounts-Quiet os d _ (record s { socket_fd = fd }) w' (connecting-Quiet fd a) begun.held)

  connect_resolved-Accounts :
      (r : Option (List os.Address)) (s : Socket) (w : os.World)
      → s.socket_fd ≡ none
      → Accounts os d none w (connect_resolved os r s w).1.socket_fd (connect_resolved os r s w).2
  unfolding connect_resolved
  connect_resolved-Accounts none s w e = rw e (record { held = tt; same = λ n. refl })
  connect_resolved-Accounts (some []) s w e = rw e (record { held = tt; same = λ n. refl })
  connect_resolved-Accounts (some (a ∷ rest)) s w e =
      let tried = connect_address-Accounts a s w e in
      Accounts-trans os d tried (
        Accounts-Quiet os d (sys_ (os.freeaddrinfo (a ∷ rest))) (connect_address os a s w).1
          (connect_address os a s w).2 (search (quiet, d.freeaddrinfo)) tried.held)

  pub connect-Accounts :
      (ip : Text) (port : ℕ) (s : Socket) (w : os.World)
      → Accounts os d s.socket_fd w (connect os ip port s w).1.socket_fd (connect os ip port s w).2
  unfolding connect close
  connect-Accounts ip port s w =
      let s' = (close os s w).1 in
      let w' = (close os s w).2 in
      let (r, w'') =
        os.getaddrinfo (some ip) (to_string port) (record { family = unspec; passive = false })
          w' in
      let looked = Accounts-same os d none none w' w'' tt refl (d.getaddrinfo _ _ _ w') in
      let before = Accounts-trans os d (close-Accounts os d s w) looked in
      let tried = Accounts-trans os d before (connect_resolved-Accounts r s' w'' refl) in
      let (success, t, u) = connect_resolved os r s' w'' in
      Accounts-if os d success _ _ t u
        (λ _. Accounts-trans os d tried (Accounts-Quiet os d _ t u quiet_end tried.held))
        λ _. Accounts-trans os d tried (close-Accounts os d t u)
    where
      quiet_end : Quiet os d (do modify λ s. record s { connected = true }; clear_errno)
      quiet_end = search quiet
