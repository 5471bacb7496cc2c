-- ===== src/Socket/Flags.antt =====
-- The flags of a socket: at most one of listener and connected, and none without a descriptor.
use simpwire.Prelude.{
  ℕ, Bool, true, false, ◌≡◌, ◌≢◌, refl, Option, none, some, List, [], ◌∷◌, Text, arith, Bool-cases,
  inl, inr, ◌==◌, ◌&&◌, ◌||◌, to_string,
}
use simpwire.Common.{IpVersion}
use simpwire.ISocket.{Bytes}
use simpwire.Socket.Os.{Os, Hints}
use simpwire.Socket.State.{Socket, M, close, set_errno, clear_errno, get_last_errno, new_socket}
use simpwire.Socket.Opening.{
  listen, connect, accept, listen_bound, listen_opened, listen_on, listen_end, family_of,
  listen_resolved, connect_resolved, connect_address, connect_pending, set_non_blocking,
  bind_and_listen,
}
use simpwire.Socket.Transfer.{receive, send, receive_end, classify}

pub record Valid (s : Socket) : Type 0 where
  pub one_role : (s.connected && s.listener) ≡ false
  pub role_has_fd : s.socket_fd ≡ none → (s.connected || s.listening) ≡ false
  pub listens : s.listening ≡ true → s.listener ≡ true

abbrev pub OptionValid : Option Socket → Type 0
OptionValid none = Unit {0}
OptionValid (some s) = Valid s

pub record Idle (s : Socket) : Type 0 where
  pub not_connected : s.connected ≡ false
  pub not_listening : s.listening ≡ false
  pub not_listener : s.listener ≡ false

-- What the loop of `listen` leaves behind.
pub record Listened (b : Bool) (s : Socket) : Type 0 where
  pub not_connected : s.connected ≡ false
  pub not_listening : s.listening ≡ false
  pub listener : s.listener ≡ b
  pub with_fd : b ≡ true → s.socket_fd ≢ none

Idle-fd : (fd : Option ℕ) (s : Socket) → Idle s → Idle (record s { socket_fd = fd })
Idle-fd fd s h = record {
  not_connected = h.not_connected;
  not_listening = h.not_listening;
  not_listener = h.not_listener;
}

module _ (os : Os) where
  unfoldable pub Listens : (M os.World Bool) → Type 0
  Listens m = (s : Socket) (w : os.World) → Idle s → Listened (m s w).0 (m s w).1

  listen_bound-Listened :
      (port n : ℕ) (next : M os.World Bool) (s : Socket) (w : os.World)
      → Listens next
      → Idle s
      → s.socket_fd ≡ some n
      → Listened
          (listen_bound os port (some n) next s w).0
          (listen_bound os port (some n) next s w).1
  unfolding Listens listen_bound
  listen_bound-Listened port n next s w h idle fd =
      elim (Bool-cases (set_non_blocking os (some n) w).0) [
        | inl e ↦
            rw (e, listen_bound)
              (record {
                not_connected = idle.not_connected;
                not_listening = idle.not_listening;
                listener = refl;
                with_fd = λ t. ground arith;
              })
        | inr e ↦ rw (e, listen_bound) (h s (set_non_blocking os (some n) w).1 idle)
      ]

  listen_opened-Listened :
      (port : ℕ) (address : os.Address) (fd : Option ℕ) (next : M os.World Bool) (s : Socket)
      (w : os.World)
      → Listens next
      → Idle s
      → s.socket_fd ≡ fd
      → Listened
          (listen_opened os port address fd next s w).0
          (listen_opened os port address fd next s w).1
  unfolding Listens listen_opened
  listen_opened-Listened port address none next s w h idle fd = h s w idle
  listen_opened-Listened port address (some n) next s w h idle fd =
      elim (Bool-cases (bind_and_listen os (some n) address w).0) [
        | inl e ↦
            rw (e, listen_opened)
              (listen_bound-Listened port n next s (bind_and_listen os (some n) address w).1 h idle
                fd)
        | inr e ↦
            rw (e, listen_opened)
              (h (record s { socket_fd = none })
                (os.close (some n) (bind_and_listen os (some n) address w).1) (Idle-fd none s idle))
      ]

  listen_on-Listened :
      (port : ℕ) (addresses : List os.Address) → Listens (listen_on os port addresses)
  unfolding Listens listen_on
  listen_on-Listened port [] s w h = record {
    not_connected = h.not_connected;
    not_listening = h.not_listening;
    listener = h.not_listener;
    with_fd = λ e. cc;
  }
  listen_on-Listened port (address ∷ rest) s w h =
      let fd = (os.socket address w).0 in
      listen_opened-Listened port address fd (listen_on os port rest) (record s { socket_fd = fd })
        (os.socket address w).1 (listen_on-Listened port rest) (Idle-fd fd s h) refl

  pub close-Idle : (s : Socket) (w : os.World) → Idle (close os s w).1
  unfolding close
  close-Idle s w = record { not_connected = refl; not_listening = refl; not_listener = refl }

  close-Valid : (s : Socket) (w : os.World) → Valid (close os s w).1
  unfolding close
  close-Valid s w = ground arith

  pub listen_resolved-Listened :
      (port : ℕ) (r : Option (List os.Address)) → Listens (listen_resolved os port r)
  unfolding Listens listen_resolved
  listen_resolved-Listened port none s w h = record {
    not_connected = h.not_connected;
    not_listening = h.not_listening;
    listener = h.not_listener;
    with_fd = λ e. cc;
  }
  listen_resolved-Listened port (some addresses) s w h = listen_on-Listened port addresses s w h

  listen_end-Valid :
      (b : Bool) (s : Socket) (w : os.World) → Listened b s → Valid (listen_end os b s w).1
  unfolding listen_end set_errno clear_errno
  listen_end-Valid true s w h = ground (arith, h.with_fd refl, h.not_connected)
  listen_end-Valid false s w h = ground (arith, h.not_connected, h.not_listening)

  listen-Valid :
      (port : ℕ) (ipv : IpVersion) (s : Socket) (w : os.World) → Valid (listen os port ipv s w).1
  unfolding listen Listens
  listen-Valid port ipv s w =
      let s' = (close os s w).1 in
      let w' = (close os s w).2 in
      let hints : Hints = record { family = family_of ipv; passive = true } in
      let (r, w'') = os.getaddrinfo none (to_string port) hints w' in
      elim (Bool-cases (port == 0)) [
        | inl e ↦ rw (e, listen) (close-Valid s w)
        | inr e ↦
            rw (e, listen)
              (listen_end-Valid _ _ _ (listen_resolved-Listened port r s' w'' (close-Idle s w)))
      ]

  send-Valid : (bytes : Bytes) (s : Socket) (w : os.World) → Valid s → Valid (send os bytes s w).1
  unfolding send set_errno clear_errno
  send-Valid bytes s w h = ground arith

  receive-Valid : (old : Bytes) (s : Socket) (w : os.World) → Valid s → Valid (receive os old s w).1
  unfolding receive receive_end set_errno clear_errno close classify
  receive-Valid old s w h = ground arith

  accept-Valid : (s : Socket) (w : os.World) → Valid s → Valid (accept os s w).1
  unfolding accept set_errno clear_errno get_last_errno set_non_blocking
  accept-Valid s w h = ground arith

  connect-Valid :
      (ip : Text) (port : ℕ) (s : Socket) (w : os.World) → Valid (connect os ip port s w).1
  unfolding connect connect_resolved connect_address connect_pending set_errno clear_errno
      set_non_blocking close
  connect-Valid ip port s w = ground arith

  accepted-Valid : (s : Socket) (w : os.World) → OptionValid (accept os s w).0
  unfolding accept set_errno clear_errno get_last_errno set_non_blocking new_socket
  accepted-Valid s w = ground arith

  -- For a valid socket, whatever the system answers: it is valid after each of `listen`,
  -- `connect`, `close`, `accept`, `receive` and `send`, and a socket that `accept` returns is valid.
  pub methods-Valid :
      (s : Socket) (w : os.World) (port : ℕ) (ipv : IpVersion) (ip : Text) (old bytes : Bytes)
      → Valid s
      → Valid (listen os port ipv s w).1
        × Valid (connect os ip port s w).1
        × Valid (close os s w).1
        × Valid (accept os s w).1
        × Valid (receive os old s w).1
        × Valid (send os bytes s w).1
        × OptionValid (accept os s w).0
  methods-Valid s w port ipv ip old bytes h = (
    listen-Valid port ipv s w,
    connect-Valid ip port s w,
    close-Valid s w,
    accept-Valid s w h,
    receive-Valid old s w h,
    send-Valid bytes s w h,
    accepted-Valid s w,
  )
