-- ===== src/Socket/Windows.antt =====
-- src/Socket.cpp, as it is compiled on Windows: what differs from the other modules of Socket. The
-- calls that both systems have are those of `Os`, with closesocket for `close` and WSAGetLastError
-- for `errno`.
use simpwire.Prelude.{
  ℕ, Bool, true, false, not, ◌&&◌, ◌||◌, Option, none, some, List, [], ◌∷◌, Text, to_string, ◌==◌,
  if◌then◌else◌,
}
use simpwire.Common.{IpVersion}
use simpwire.ISocket.{
  Bytes, ReceiveResult, ok, error_no_connection, error_peer_disconnected, error_is_listener,
  error_nothing_received, error_system,
}
use simpwire.Socket.Os.{Os, Fd, unspec}
use simpwire.Socket.State.{
  Socket, M, pure, ◌>>=◌, ◌>>◌, gets, modify, asks, sys, sys_, set_errno, clear_errno,
  get_last_errno, close, new_socket,
}
use simpwire.Socket.Opening.{family_of, bind_and_listen, listen_end}
use simpwire.Socket.Names.{address_text, address_port}
use simpwire.Socket.Transfer.{received_into, receive_end}
pub mod Descriptors
pub mod Balance
mod Tests

pub record WinOs : Type 1 where
  pub os : Os
  pub ioctlsocket : Fd → os.World → Bool × os.World  -- with FIONBIO: whether it succeeds
  pub wsaewouldblock : ℕ
  pub wsaeinprogress : ℕ
  pub wsatry_again : ℕ
  pub wsaeisconn : ℕ
  pub format_message : ℕ → Text

module _ (win : WinOs) where
  -- A socket that cannot be made non-blocking is closed.
  unfoldable pub listen_bound : ℕ → Fd → M win.os.World Bool → M win.os.World Bool
  listen_bound port fd next = do
    nonblocking ← sys (win.ioctlsocket fd)
    if nonblocking
        then (do modify λ s. record s { listener = true; listen_port = port }; pure true)
        else (do sys_ (win.os.close fd); modify λ s. record s { socket_fd = none }; next)

  unfoldable pub listen_opened : ℕ → win.os.Address → Fd → M win.os.World Bool → M win.os.World Bool
  listen_opened port address none next = next
  listen_opened port address (some n) next = do
    bound ← sys (bind_and_listen win.os (some n) address)
    if bound
        then listen_bound port (some n) next
        else (do sys_ (win.os.close (some n)); modify λ s. record s { socket_fd = none }; next)

  unfoldable pub listen_on : ℕ → List win.os.Address → M win.os.World Bool
  listen_on port [] = pure false
  listen_on port (address ∷ rest) = do
    fd ← sys (win.os.socket address)
    modify λ s. record s { socket_fd = fd }
    listen_opened port address fd (listen_on port rest)

  unfoldable pub listen_resolved : ℕ → Option (List win.os.Address) → M win.os.World Bool
  listen_resolved port none = pure false
  listen_resolved port (some addresses) = do
    success ← listen_on port addresses
    sys_ (win.os.freeaddrinfo addresses)
    pure success

  -- Socket::listen
  unfoldable pub listen : ℕ → IpVersion → M win.os.World Bool
  listen port version = do
    close win.os
    if port == 0 then pure false else (do
      r ← sys (
          win.os.getaddrinfo none (to_string port)
            (record { family = family_of version; passive = true }))
      success ← listen_resolved port r
      listen_end win.os success
      pure success)

  -- A pending connection is asked for a second time, after a short sleep.
  unfoldable pub connect_pending : Fd → win.os.Address → M win.os.World Bool
  connect_pending fd address = do
    ms ← gets λ s. s.sleep_time
    sys_ (win.os.sleep_for ms)
    conn ← sys (win.os.connect fd address)
    last_error ← asks win.os.errno
    if conn || last_error == win.wsaeisconn
        then (do
          r ← sys (win.os.get_so_error fd)
          pure (elim r [ none ↦ false | some optval ↦ optval == 0 ]))
        else pure false

  unfoldable pub connect_address : win.os.Address → M win.os.World Bool
  connect_address address = do
    fd ← sys (win.os.socket address)
    modify λ s. record s { socket_fd = fd }
    nonblocking ← sys (win.ioctlsocket fd)
    if nonblocking
        then (do
          conn ← sys (win.os.connect fd address)
          n ← asks win.os.errno
          if conn
              then pure true
              else if n == win.wsaewouldblock
              then connect_pending fd address
              else pure false)
        else pure false

  unfoldable pub connect_resolved : Option (List win.os.Address) → M win.os.World Bool
  connect_resolved none = pure false
  connect_resolved (some []) = pure false
  connect_resolved (some (address ∷ rest)) = do
    success ← connect_address address
    sys_ (win.os.freeaddrinfo (address ∷ rest))
    pure success

  -- Socket::connect
  unfoldable pub connect : Text → ℕ → M win.os.World Bool
  connect ip port = do
    close win.os
    r ← sys (
        win.os.getaddrinfo (some ip) (to_string port) (record { family = unspec; passive = false }))
    success ← connect_resolved r
    if success
        then (do modify λ s. record s { connected = true }; clear_errno)
        else (do close win.os; set_errno win.os)
    pure success

  -- The error numbers that mean that there is nothing yet.
  abbrev pub not_yet : ℕ → Bool
  not_yet n = n == win.wsaeinprogress || n == win.wsaewouldblock || n == win.wsatry_again

  -- Socket::accept
  unfoldable pub accept : M win.os.World (Option Socket)
  accept = do
    is_listener ← gets λ s. s.listener
    if is_listener
        then (do
          fd ← gets λ s. s.socket_fd
          peer_socket_fd ← sys (win.os.accept fd)
          elim peer_socket_fd [
            | some n ↦ do
              sys (win.ioctlsocket (some n))
              pure (some (record new_socket { socket_fd = some n; connected = true }))
            | none ↦ do
              set_errno win.os
              errornum ← get_last_errno
              if not_yet errornum then clear_errno else pure tt
              pure none
          ])
        else pure none

  -- What the result of `recv` means; `n` is WSAGetLastError after the call.
  unfoldable pub classify : Option Bytes → ℕ → ReceiveResult
  classify none n = if not_yet n then error_nothing_received else error_system
  classify (some []) n = error_peer_disconnected
  classify (some (b ∷ bs)) n = ok

  -- Socket::receive
  unfoldable pub receive : Bytes → M win.os.World (ReceiveResult × Bytes)
  receive old = do
    is_listener ← gets λ s. s.listener
    is_connected ← gets λ s. s.connected
    if is_listener
        then (do receive_end win.os error_is_listener; pure (error_is_listener, old))
        else if not is_connected
        then (do receive_end win.os error_no_connection; pure (error_no_connection, old))
        else (do
          fd ← gets λ s. s.socket_fd
          size ← gets λ s. s.receive_buffer_size
          recv_res ← sys (win.os.recv fd size)
          n ← asks win.os.errno
          receive_end win.os (classify recv_res n)
          pure (classify recv_res n, received_into win.os old recv_res))

  -- Socket::getLastErrnoString
  unfoldable pub get_last_errno_string : M win.os.World Text
  get_last_errno_string = do
    lasterrno ← get_last_errno
    pure (if lasterrno == 0 then [] else win.format_message lasterrno)

  -- The address of the peer: the storage is larger than on Linux.
  unfoldable peer_address : M win.os.World (Option win.os.SockAddress)
  peer_address = do
    is_listener ← gets λ s. s.listener
    is_connected ← gets λ s. s.connected
    fd ← gets λ s. s.socket_fd
    if not is_listener && is_connected then sys (win.os.getpeername fd 128) else pure none

  -- Socket::peerIpAddress
  unfoldable pub peer_ip_address : M win.os.World Text
  unfolding peer_address
  peer_ip_address = do a ← peer_address; pure (address_text win.os a)

  -- Socket::peerPort
  unfoldable pub peer_port : M win.os.World ℕ
  unfolding peer_address
  peer_port = do a ← peer_address; pure (address_port win.os a)

  -- Socket::peerName
  unfoldable pub peer_name : M win.os.World Text
  unfolding peer_address
  peer_name = do
    a ← peer_address
    elim a [
      | none ↦ pure []
      | some sa ↦ do
        r ← sys (win.os.getnameinfo sa (win.os.sa_length sa))
        pure (elim r [ none ↦ [] | some name ↦ name ])
    ]
