-- ===== src/Samples.antt =====
-- Sample networks, systems and states, for the tests.
use simpwire.Prelude.{
  IsPositive, ℕ, suc, ◌==◌, if◌then◌else◌, true, false, none, some, ℤ, pos, [], ◌∷◌, codes, arith,
  length, refl,
}
use simpwire.Common.{any}
use simpwire.ISocket.{ISocket, ReceiveResult}
use simpwire.Store.{Store, update}
use simpwire.PeerPrivate.{PeerPrivate, new_peer_private}
use simpwire.Socket.Os.{Os, inet}
use simpwire.Socket.State.{Socket, new_socket}
use simpwire.Socket.Class.{socket_class}
use simpwire.TcpNodePrivate.State.{State, new_node, ConnectPc, ThreadPc}
use simpwire.TcpNodePrivate.Invariant.{Inv}

-- A socket is the role that it has: 0 new, 1 listener, 2 connected. The world is a clock.
abbrev pub easy_network : ISocket
easy_network = record {
  Sock = ℕ;
  World = ℕ;
  listen = λ port ipv s w. (true, 1, suc w);
  connect = λ ip port s w. (true, 2, suc w);
  close = λ s w. (tt, 0, suc w);
  accept = λ s w. (some 2, s, suc w);
  receive = λ bytes s w. ((ReceiveResult.ok, 7 ∷ []), s, suc w);
  send = λ bytes s w. (length bytes, s, suc w);
  socket_number = λ s. some s;
  is_listener = λ s. s == 1;
  listen_port = λ s. 80;
  is_connected = λ s. s == 2;
  is_listening = λ s. s == 1;
  peer_ip_address = λ s w. (codes "::1", s, w);
  peer_port = λ s w. (80, s, w);
  own_ip_address = λ s w. (codes "::1", s, w);
  peer_name = λ s w. (codes "host", s, w);
  set_receive_buffer_size = λ n s w. (tt, s, w);
  receive_buffer_size = λ s. 1024;
  set_sleep_time = λ n s w. (tt, s, w);
  sleep_time = λ s. 10;
  get_last_errno = λ s w. (0, s, w);
  get_last_errno_string = λ s w. ([], s, w);
  destroy = λ s w. w;
}

abbrev pub easy_sleep : ℤ → ℕ → ℤ × ℕ
easy_sleep ms w = (pos 1_000_000, suc w)

abbrev pub empty_store : Store easy_network
empty_store = record { cell = λ a. none; next = 0; world = 0 }

abbrev pub easy_socket : ℕ → ℕ × ℕ
easy_socket w = (0, w)

abbrev pub first_state : State easy_network
first_state = new_node {I = easy_network} easy_socket any 0 empty_store

pub easy_ticks : (ms : ℤ) (w : ℕ) → IsPositive (easy_sleep ms w).0
easy_ticks ms w = (999_999, refl)

-- A node with one peer, and with work for all its threads.
abbrev pub first_peer : PeerPrivate
first_peer = record new_peer_private { connection_id = 1; socket = some 1; valid = true }

abbrev pub busy_state : State easy_network
busy_state = record first_state {
  connection_counter = 1;
  peers = (1, first_peer) ∷ [];
  store = record { cell = update (update (λ a. none) 0 (some 1)) 1 (some 2); next = 2; world = 0 };
  potential_peers = (codes "::1", 80) ∷ (codes "::2", 81) ∷ [];
  connect_thread_running = true;
  connect_thread = ConnectPc.trying 2;
  data_to_send = (1, 7 ∷ []) ∷ (4, 8 ∷ []) ∷ [];
  send_thread_running = true;
  send_thread = ThreadPc.at_top;
  connect_timeout = pos 1;
}

pub busy_state-Inv : Inv busy_state
unfolding new_node new_peer_private
busy_state-Inv = record {
  data_free = refl;
  callback_free = refl;
  core = record {
    listener_lives = λ e. cc;
    listener_below = omega arith;
    owned = (
      record {
        own = (λ e. cc, omega arith, omega arith);
        keyed = refl;
        positive = omega arith;
        counted = omega arith;
        valid = refl;
      },
      tt,
      tt,
    );
    pending = tt;
  };
}

-- A system that gives out the descriptor 5, and receives one byte.
abbrev pub small_os : Os
small_os = record {
  World = ℕ;
  Address = ℕ;
  SockAddress = ℕ;
  errno = λ w. 111;
  eagain = 11;
  ewouldblock = 11;
  einprogress = 115;
  o_nonblock = 2048;
  strerror = λ n. codes "refused";
  close = λ fd w. suc w;
  get_flags = λ fd w. (some 2, w);
  set_flags = λ fd flags w. (true, w);
  getaddrinfo = λ node service hints w. (some (0 ∷ 1 ∷ []), w);
  freeaddrinfo = λ addresses w. w;
  socket = λ address w. (some 5, w);
  set_reuse_address = λ fd w. (true, w);
  bind = λ fd address w. (true, w);
  listen = λ fd backlog w. (true, w);
  accept = λ fd w. (none, w);
  connect = λ fd address w. (false, w);
  get_so_error = λ fd w. (some 0, w);
  recv = λ fd size w. (if size == 0 then none else some (7 ∷ []), w);
  send = λ fd bytes w. (some (length bytes), w);
  getpeername = λ fd size w. (some 0, w);
  sa_length = λ a. 16;
  sa_family = λ a. inet;
  ntop_inet = λ a. codes "127.0.0.1";
  ntop_inet6 = λ a. codes "::1";
  port_inet = λ a. 80;
  port_inet6 = λ a. 80;
  getnameinfo = λ a size w. (none, w);
  gethostname = λ size w. (some (codes "host"), w);
  sleep_for = λ ms w. suc w;
}

abbrev pub failed_socket : Socket
failed_socket = record new_socket { last_errno = 111 }

abbrev pub failed_state : State (socket_class small_os)
failed_state =
    new_node {I = socket_class small_os} (λ w. (failed_socket, w)) any 0
      (record { cell = λ a. none; next = 0; world = 0 })
