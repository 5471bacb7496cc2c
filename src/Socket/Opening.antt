-- ===== src/Socket/Opening.antt =====
-- src/Socket.cpp: listening, connecting and accepting.
use Prim.Native.Nat.{bit_or}
use simpwire.Prelude.{
  ℕ, Bool, true, false, ◌||◌, Option, none, some, List, [], ◌∷◌, Text, to_string, ◌==◌,
  if◌then◌else◌,
}
use simpwire.Common.{IpVersion, any, ipv4, ipv6}
use simpwire.Socket.Os.{Os, Fd, Family, unspec, inet, inet6}
use simpwire.Socket.State.{
  Socket, M, pure, ◌>>=◌, ◌>>◌, gets, modify, asks, sys, sys_, set_errno, clear_errno,
  get_last_errno, close, new_socket,
}

abbrev pub family_of : IpVersion → Family
family_of any = unspec
family_of ipv4 = inet
family_of ipv6 = inet6

module _ (os : Os) where
  -- setNonBlocking
  unfoldable pub set_non_blocking : Fd → os.World → Bool × os.World
  set_non_blocking none w = (false, w)
  set_non_blocking (some fd) w =
      let (settings, w') = os.get_flags (some fd) w in
      elim settings [
        | none ↦ (false, w')
        | some flags ↦ os.set_flags (some fd) (bit_or flags os.o_nonblock) w'
      ]

  -- SO_REUSEADDR, bind and ::listen, each only if those before it succeed.
  unfoldable pub bind_and_listen : Fd → os.Address → os.World → Bool × os.World
  bind_and_listen fd address w =
      let (reused, w₁) = os.set_reuse_address fd w in
      if reused
      then (let (bound, w₂) = os.bind fd address w₁ in
          if bound then os.listen fd 20 w₂ else (false, w₂))
      else (false, w₁)

  -- A socket that is bound and listens is made non-blocking. Where that fails it stays open, and
  -- `next`, the loop for the other addresses, overwrites its descriptor.
  unfoldable pub listen_bound : ℕ → Fd → M os.World Bool → M os.World Bool
  unfolding set_non_blocking
  listen_bound port fd next = do
    nonblocking ← sys (set_non_blocking fd)
    if nonblocking
        then (do modify λ s. record s { listener = true; listen_port = port }; pure true)
        else next

  unfoldable pub listen_opened : ℕ → os.Address → Fd → M os.World Bool → M os.World Bool
  unfolding bind_and_listen listen_bound
  listen_opened port address none next = next
  listen_opened port address (some n) next = do
    bound ← sys (bind_and_listen (some n) address)
    if bound
        then listen_bound port (some n) next
        else (do sys_ (os.close (some n)); modify λ s. record s { socket_fd = none }; next)

  -- The loop of `Socket::listen` over the addresses.
  unfoldable pub listen_on : ℕ → List os.Address → M os.World Bool
  unfolding listen_opened
  listen_on port [] = pure false
  listen_on port (address ∷ rest) = do
    fd ← sys (os.socket address)
    modify λ s. record s { socket_fd = fd }
    listen_opened port address fd (listen_on port rest)

  unfoldable pub listen_resolved : ℕ → Option (List os.Address) → M os.World Bool
  unfolding listen_on
  listen_resolved port none = pure false
  listen_resolved port (some addresses) = do
    success ← listen_on port addresses
    sys_ (os.freeaddrinfo addresses)
    pure success

  unfoldable pub listen_end : Bool → M os.World (Unit {0})
  unfolding set_errno clear_errno
  listen_end true = do modify λ s. record s { listener = true; listening = true }; clear_errno
  listen_end false = set_errno os

  -- Socket::listen. Port 0 is refused.
  unfoldable pub listen : ℕ → IpVersion → M os.World Bool
  unfolding close listen_resolved listen_end
  listen port version = do
    close os
    if port == 0 then pure false else (do
      r ← sys (
          os.getaddrinfo none (to_string port)
            (record { family = family_of version; passive = true }))
      success ← listen_resolved port r
      listen_end success
      pure success)

  -- What a pending connection's error says after a short sleep.
  unfoldable pub connect_pending : M os.World Bool
  connect_pending = do
    ms ← gets λ s. s.sleep_time
    sys_ (os.sleep_for ms)
    fd ← gets λ s. s.socket_fd
    r ← sys (os.get_so_error fd)
    pure (elim r [ none ↦ false | some sock_error ↦ sock_error == 0 ])

  unfoldable pub connect_address : os.Address → M os.World Bool
  unfolding set_non_blocking connect_pending
  connect_address address = do
    fd ← sys (os.socket address)
    modify λ s. record s { socket_fd = fd }
    nonblocking ← sys (set_non_blocking fd)
    if nonblocking
        then (do
          conn ← sys (os.connect fd address)
          n ← asks os.errno
          if conn then pure true else if n == os.einprogress then connect_pending else pure false)
        else pure false

  -- Only the first address is tried.
  unfoldable pub connect_resolved : Option (List os.Address) → M os.World Bool
  unfolding connect_address
  connect_resolved none = pure false
  connect_resolved (some []) = pure false
  connect_resolved (some (address ∷ rest)) = do
    success ← connect_address address
    sys_ (os.freeaddrinfo (address ∷ rest))
    pure success

  -- Socket::connect
  unfoldable pub connect : Text → ℕ → M os.World Bool
  unfolding close connect_resolved set_errno clear_errno
  connect ip port = do
    close os
    r ←
        sys
          (os.getaddrinfo (some ip) (to_string port) (record { family = unspec; passive = false }))
    success ← connect_resolved r
    if success
        then (do modify λ s. record s { connected = true }; clear_errno)
        else (do close os; set_errno os)
    pure success

  -- Socket::accept: the new socket, which has the default settings.
  unfoldable pub accept : M os.World (Option Socket)
  unfolding set_non_blocking set_errno get_last_errno clear_errno new_socket
  accept = do
    is_listener ← gets λ s. s.listener
    if is_listener
        then (do
          fd ← gets λ s. s.socket_fd
          peer_socket_fd ← sys (os.accept fd)
          elim peer_socket_fd [
            | some n ↦ do
              sys (set_non_blocking (some n))
              pure (some (record new_socket { socket_fd = some n; connected = true }))
            | none ↦ do
              set_errno os
              errornum ← get_last_errno
              if errornum == os.eagain || errornum == os.ewouldblock then clear_errno else pure tt
              pure none
          ])
        else pure none
