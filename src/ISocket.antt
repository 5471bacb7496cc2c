-- ===== src/ISocket.antt =====
-- src/ISocket.hpp: the interface through which a node reaches its sockets. An object of a class
-- that implements it is a value of `Sock`; `World` is what lies outside the program (the kernel,
-- the network, the clock). A method that may change either returns both. The five getters only
-- read. Byte values and ports are natural numbers; error numbers are the errno values of POSIX,
-- which are not negative.
use simpwire.Prelude.{ℕ, Bool, List, Option, Text}
use simpwire.Common.{IpVersion}

pub data ReceiveResult : Type 0 where
  ok error_no_connection error_peer_disconnected : ReceiveResult
  error_is_listener error_nothing_received error_system : ReceiveResult

-- std::vector<uint8_t>
abbrev pub Bytes : Type 0
Bytes = List ℕ

-- A method call on an object: its result, the object afterwards and the world afterwards.
abbrev pub Method : Type 0 → Type 0 → Type 0 → Type 0
Method S W A = S → W → A × S × W

pub record ISocket : Type 1 where
  pub Sock : Type 0
  pub World : Type 0
  pub listen : ℕ → IpVersion → Method Sock World Bool
  pub connect : Text → ℕ → Method Sock World Bool
  pub close : Method Sock World (Unit {0})
  -- The new object, where the source returns a pointer that is not null.
  pub accept : Method Sock World (Option Sock)
  -- The vector that is passed by reference goes in and comes out.
  pub receive : Bytes → Method Sock World (ReceiveResult × Bytes)
  pub send : Bytes → Method Sock World ℕ
  pub socket_number : Sock → Option ℕ
  pub is_listener : Sock → Bool
  pub listen_port : Sock → ℕ
  pub is_connected : Sock → Bool
  pub is_listening : Sock → Bool
  pub peer_ip_address : Method Sock World Text
  pub peer_port : Method Sock World ℕ
  pub own_ip_address : Method Sock World Text
  pub peer_name : Method Sock World Text
  pub set_receive_buffer_size : ℕ → Method Sock World (Unit {0})
  pub receive_buffer_size : Sock → ℕ
  pub set_sleep_time : ℕ → Method Sock World (Unit {0})
  pub sleep_time : Sock → ℕ
  pub get_last_errno : Method Sock World ℕ
  pub get_last_errno_string : Method Sock World Text
  -- The virtual destructor.
  pub destroy : Sock → World → World
