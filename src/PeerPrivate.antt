-- ===== src/PeerPrivate.antt =====
-- src/PeerPrivate.hpp and src/PeerPrivate.cpp: what a node knows of a connection. The getters are
-- the fields.
use simpwire.Prelude.{ℕ, Bool, true, false, ◌&&◌, Option, none, some, [], Text, text_eq, ◌==◌}
use simpwire.Common.{Message}
use simpwire.ISocket.{ISocket}
use simpwire.Store.{Store, Result, ok, fault, call, delete_object}

pub data DisconnectType : Type 0 where
  peer_disconnected_themself : DisconnectType
  peer_was_disconnected : DisconnectType
  peer_was_disconnected_due_to_error : DisconnectType

-- `socket` is a pointer: `none` is null.
pub record PeerPrivate : Type 0 where
  pub connection_id : ℕ
  pub ip_address : Text
  pub port_number : ℕ
  pub hostname : Text
  pub valid : Bool
  pub to_be_deleted : Bool
  pub socket : Option ℕ
  pub disconn : DisconnectType
  pub errmsg : Message

-- PeerPrivate::PeerPrivate
unfoldable pub new_peer_private : PeerPrivate
new_peer_private = record {
  connection_id = 0;
  ip_address = [];
  port_number = 0;
  hostname = [];
  valid = false;
  to_be_deleted = false;
  socket = none;
  disconn = peer_disconnected_themself;
  errmsg = record { head = []; body = [] };
}

-- PeerPrivate::operator=, field by field; the first argument is what is written over.
unfoldable pub assign_private : PeerPrivate → PeerPrivate → PeerPrivate
assign_private p other = record p {
  connection_id = other.connection_id;
  ip_address = other.ip_address;
  port_number = other.port_number;
  hostname = other.hostname;
  valid = other.valid;
  to_be_deleted = other.to_be_deleted;
  socket = other.socket;
  disconn = other.disconn;
  errmsg = other.errmsg;
}

-- PeerPrivate::operator==
unfoldable pub private_eq : PeerPrivate → PeerPrivate → Bool
private_eq p other =
    p.connection_id == other.connection_id
    && text_eq p.ip_address other.ip_address
    && p.port_number == other.port_number
    && text_eq p.hostname other.hostname

-- PeerPrivate::operator bool
unfoldable pub private_to_bool : PeerPrivate → Bool
private_to_bool p = p.valid

-- PeerPrivate::set
unfoldable pub set_identity : ℕ → Text → ℕ → Text → PeerPrivate → PeerPrivate
set_identity conn_id ip port hostname p = record p {
  connection_id = conn_id;
  ip_address = ip;
  port_number = port;
  hostname = hostname;
}

unfoldable pub set_valid : Bool → PeerPrivate → PeerPrivate
set_valid valid p = record p { valid = valid }

unfoldable pub schedule_delete : DisconnectType → PeerPrivate → PeerPrivate
schedule_delete dt p = record p { disconn = dt; to_be_deleted = true }

unfoldable pub set_socket : ℕ → PeerPrivate → PeerPrivate
set_socket sock p = record p { socket = some sock }

unfoldable pub set_error_message : Message → PeerPrivate → PeerPrivate
set_error_message err p = record p { errmsg = err }

-- PeerPrivate::destroySocket: closes the socket and deletes it. Without a socket nothing happens.
unfoldable pub destroy_socket :
    {I : ISocket} → PeerPrivate → Store I → Result (PeerPrivate × Store I)
destroy_socket {I} p m = elim p.socket [
  | none ↦ ok (p, m)
  | some a ↦ elim (call I.close a m) [
    | fault e ↦ fault e
    | ok (_, m') ↦ elim (delete_object a m') [
      | fault e ↦ fault e
      | ok m'' ↦ ok (record p { socket = none }, m'')
    ]
  ]
]
