-- ===== src/Peer.antt =====
-- include/Peer.hpp and src/Peer.cpp: the public view of a connection, as a value: what is behind
-- `m_private`, or `none` where that pointer is null. Peer/Objects.antt has the objects themselves.
use simpwire.Prelude.{ℕ, Bool, false, Option, none, some, [], Text}
use simpwire.PeerPrivate.{PeerPrivate, private_eq, private_to_bool}
pub mod Objects

abbrev pub Peer : Type 0
Peer = Option PeerPrivate

unfoldable pub id : Peer → ℕ
id none = 0
id (some p) = p.connection_id

unfoldable pub ip_address : Peer → Text
ip_address none = []
ip_address (some p) = p.ip_address

unfoldable pub port : Peer → ℕ
port none = 0
port (some p) = p.port_number

unfoldable pub host_name : Peer → Text
host_name none = []
host_name (some p) = p.hostname

unfoldable pub is_valid : Peer → Bool
is_valid none = false
is_valid (some p) = p.valid

-- Peer::operator==
unfoldable pub peer_eq : Peer → Peer → Bool
unfolding private_eq
peer_eq none other = false
peer_eq (some p) none = false
peer_eq (some p) (some q) = private_eq p q

-- Peer::operator bool
unfoldable pub to_bool : Peer → Bool
unfolding private_to_bool
to_bool none = false
to_bool (some p) = private_to_bool p
