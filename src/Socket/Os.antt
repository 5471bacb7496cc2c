-- ===== src/Socket/Os.antt =====
-- What src/Socket.cpp takes from the operating system and its C library. `World` is its state. A
-- file descriptor is `none` where the C code has -1, and so is the result of a call that fails. A
-- call that fails leaves its reason in `errno`.
use simpwire.Prelude.{ℕ, Bool, Option, List, Text}
use simpwire.ISocket.{Bytes}

abbrev pub Fd : Type 0
Fd = Option ℕ

-- AF_UNSPEC, AF_INET, AF_INET6
pub data Family : Type 0 where
  unspec inet inet6 : Family

-- The hints that differ between the calls of getaddrinfo: the family, and AI_PASSIVE. The socket
-- type is SOCK_STREAM.
pub record Hints : Type 0 where
  pub family : Family
  pub passive : Bool

pub record Os : Type 1 where
  pub World : Type 0
  pub Address : Type 0  -- addrinfo, without its link
  pub SockAddress : Type 0  -- what is read from a sockaddr
  pub errno : World → ℕ
  pub eagain : ℕ
  pub ewouldblock : ℕ
  pub einprogress : ℕ
  pub o_nonblock : ℕ
  pub strerror : ℕ → Text
  pub close : Fd → World → World
  pub get_flags : Fd → World → Option ℕ × World  -- fcntl with F_GETFL
  pub set_flags : Fd → ℕ → World → Bool × World  -- fcntl with F_SETFL: whether it succeeds
  -- The node, the service and the hints; on success the list of addresses.
  pub getaddrinfo : Option Text → Text → Hints → World → Option (List Address) × World
  pub freeaddrinfo : List Address → World → World
  pub socket : Address → World → Fd × World
  pub set_reuse_address : Fd → World → Bool × World  -- setsockopt with SO_REUSEADDR
  pub bind : Fd → Address → World → Bool × World
  pub listen : Fd → ℕ → World → Bool × World  -- with the length of the backlog
  pub accept : Fd → World → Fd × World
  pub connect : Fd → Address → World → Bool × World
  pub get_so_error : Fd → World → Option ℕ × World  -- getsockopt with SO_ERROR
  pub recv : Fd → ℕ → World → Option Bytes × World  -- with the size of the buffer
  pub send : Fd → Bytes → World → Option ℕ × World  -- with MSG_NOSIGNAL
  -- With the size of the storage: what can be read from it afterwards.
  pub getpeername : Fd → ℕ → World → Option SockAddress × World
  pub sa_length : SockAddress → ℕ  -- the length that getpeername returns with it
  pub sa_family : SockAddress → Family
  pub ntop_inet : SockAddress → Text  -- inet_ntop of sin_addr
  pub ntop_inet6 : SockAddress → Text  -- inet_ntop of sin6_addr
  pub port_inet : SockAddress → ℕ  -- ntohs of sin_port
  pub port_inet6 : SockAddress → ℕ  -- ntohs of sin6_port
  pub getnameinfo : SockAddress → ℕ → World → Option Text × World
  pub gethostname : ℕ → World → Option Text × World
  pub sleep_for : ℕ → World → World  -- std::this_thread::sleep_for, in milliseconds
