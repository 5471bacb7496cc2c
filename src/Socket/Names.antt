-- ===== src/Socket/Names.antt =====
-- src/Socket.cpp: who is at the other end of a connection.
use simpwire.Prelude.{ℕ, ◌&&◌, not, Option, none, some, [], Text, if◌then◌else◌}
use simpwire.Socket.Os.{Os, unspec, inet, inet6}
use simpwire.Socket.State.{M, pure, ◌>>=◌, gets, sys}

-- sizeof(sockaddr)
abbrev pub sockaddr_size : ℕ
sockaddr_size = 16

module _ (os : Os) where
  -- The address of the peer, if this is a connected socket and the system knows one.
  peer_address : M os.World (Option os.SockAddress)
  peer_address = do
    is_listener ← gets λ s. s.listener
    is_connected ← gets λ s. s.connected
    fd ← gets λ s. s.socket_fd
    if not is_listener && is_connected then sys (os.getpeername fd sockaddr_size) else pure none

  unfoldable pub address_text : Option os.SockAddress → Text
  address_text none = []
  address_text (some a) = elim (os.sa_family a) [ inet ↦ os.ntop_inet a | _ ↦ os.ntop_inet6 a ]

  unfoldable pub address_port : Option os.SockAddress → ℕ
  address_port none = 0
  address_port (some a) = elim (os.sa_family a) [
    | inet ↦ os.port_inet a
    | inet6 ↦ os.port_inet6 a
    | unspec ↦ 0
  ]

  -- Socket::peerIpAddress
  unfoldable pub peer_ip_address : M os.World Text
  unfolding peer_address address_text
  peer_ip_address = do a ← peer_address; pure (address_text a)

  -- Socket::peerPort
  unfoldable pub peer_port : M os.World ℕ
  unfolding peer_address address_port
  peer_port = do a ← peer_address; pure (address_port a)

  -- Socket::ownIpAddress gives the name of the host.
  unfoldable pub own_ip_address : M os.World Text
  own_ip_address = do r ← sys (os.gethostname 100); pure (elim r [ none ↦ [] | some name ↦ name ])

  -- Socket::peerName
  unfoldable pub peer_name : M os.World Text
  unfolding peer_address
  peer_name = do
    a ← peer_address
    elim a [
      | none ↦ pure []
      | some sa ↦ do
        r ← sys (os.getnameinfo sa (os.sa_length sa))
        pure (elim r [ none ↦ [] | some name ↦ name ])
    ]
