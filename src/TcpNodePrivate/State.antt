-- ===== src/TcpNodePrivate/State.antt =====
-- src/TcpNodePrivate.hpp: the members of a node, with the values that its constructor gives them.
use simpwire.Prelude.{ℕ, Bool, false, Option, none, List, [], Text, ℤ, pos}
use simpwire.Common.{Message, IpVersion}
use simpwire.ISocket.{ISocket, Bytes}
use simpwire.Store.{Store, new_object}
use simpwire.PeerPrivate.{PeerPrivate}

-- A std::function: a name for the user's function, or none if it is empty. What the user's
-- function does is not part of the node.
abbrev pub Callback : Type 0
Callback = Option ℕ

pub record Callbacks : Type 0 where
  pub new_peer_connected : Callback
  pub connected_to_new_peer : Callback
  pub received : Callback
  pub sent : Callback
  pub peer_disconnected : Callback
  pub closed_connection : Callback
  pub started_listening : Callback
  pub stopped_listening : Callback
  pub listen_error : Callback
  pub send_error : Callback
  pub connect_error : Callback
  pub faulty_connection_closed : Callback

-- The arguments of a callback.
pub data Arguments : Type 0 where
  nothing : Arguments
  of_port : ℕ → Arguments
  of_peer : PeerPrivate → Arguments
  of_bytes : PeerPrivate → Bytes → Arguments
  of_amount : PeerPrivate → ℕ → Arguments
  of_message : Message → Arguments
  of_faulty : PeerPrivate → Message → Arguments

-- One call of a user's function, with the mutexes that the calling thread holds meanwhile.
pub record Event : Type 0 where
  pub function : ℕ
  pub arguments : Arguments
  pub data_locked : Bool
  pub callback_locked : Bool

-- Where the listen thread or the send thread stands: at the head of its loop, or in its wait on a
-- condition variable, about to look at the condition (`waiting`) or asleep until a notification.
pub data ThreadPc : Type 0 where
  not_started at_top waiting asleep finished : ThreadPc

-- The connect thread has a loop in its loop: `trying n` stands before the attempt with n left.
pub data ConnectPc : Type 0 where
  not_started at_top waiting asleep finished : ConnectPc
  trying : ℕ → ConnectPc

-- What a notification does to a thread that is asleep.
abbrev pub woken : ThreadPc → ThreadPc
woken ThreadPc.not_started = ThreadPc.not_started
woken ThreadPc.at_top = ThreadPc.at_top
woken ThreadPc.waiting = ThreadPc.waiting
woken ThreadPc.asleep = ThreadPc.waiting
woken ThreadPc.finished = ThreadPc.finished

abbrev pub connect_woken : ConnectPc → ConnectPc
connect_woken ConnectPc.not_started = ConnectPc.not_started
connect_woken ConnectPc.at_top = ConnectPc.at_top
connect_woken ConnectPc.waiting = ConnectPc.waiting
connect_woken ConnectPc.asleep = ConnectPc.waiting
connect_woken ConnectPc.finished = ConnectPc.finished
connect_woken (ConnectPc.trying n) = ConnectPc.trying n

-- std::unordered_map<uint64_t, Peer>, in the order in which it is iterated. The peers in it never
-- have a null `m_private`.
abbrev pub PeerList : Type 0
PeerList = List (ℕ × PeerPrivate)

pub record State (I : ISocket) : Type 0 where
  pub listener : ℕ
  pub portnumber : ℕ
  pub ip_version : IpVersion
  pub connect_thread_running : Bool
  pub send_thread_running : Bool
  pub listen_thread_running : Bool
  pub listening_enabled : Bool
  pub destructor_called : Bool
  pub listener_available : Bool
  pub wakeup_listen_thread : Bool
  pub changing_listener : Bool
  pub connect_timeout : ℤ
  pub sleep_time : ℤ
  pub potential_peers : List (Text × ℕ)
  pub data_to_send : List (ℕ × Bytes)
  pub connect_thread : ConnectPc
  pub send_thread : ThreadPc
  pub listen_thread : ThreadPc
  pub callbacks : Callbacks
  pub create_new_socket : I.World → I.Sock × I.World
  pub data_access : Bool  -- the mutex is held
  pub callback_access : Bool
  pub peers : PeerList
  pub connection_counter : ℕ  -- static: shared by all nodes of the process
  pub store : Store I
  pub events : List Event  -- newest first

abbrev pub default_timeout_ms : ℤ
default_timeout_ms = pos 3000

abbrev pub default_sleeptime_ms : ℤ
default_sleeptime_ms = pos 10

abbrev pub no_callbacks : Callbacks
no_callbacks = record {
  new_peer_connected = none;
  connected_to_new_peer = none;
  received = none;
  sent = none;
  peer_disconnected = none;
  closed_connection = none;
  started_listening = none;
  stopped_listening = none;
  listen_error = none;
  send_error = none;
  connect_error = none;
  faulty_connection_closed = none;
}

-- TcpNodePrivate::TcpNodePrivate, in a process with this store and this connection counter.
-- `default_new_socket` is the function of that name.
unfoldable pub new_node :
    {I : ISocket} → (I.World → I.Sock × I.World) → IpVersion → ℕ → Store I → State I
unfolding new_object
new_node default_new_socket ipv counter m =
    let (o, w) = default_new_socket m.world in
    let (a, m') = new_object o (record m { world = w }) in
    record {
      listener = a;
      portnumber = 0;
      ip_version = ipv;
      connect_thread_running = false;
      send_thread_running = false;
      listen_thread_running = false;
      listening_enabled = false;
      destructor_called = false;
      listener_available = false;
      wakeup_listen_thread = false;
      changing_listener = false;
      connect_timeout = default_timeout_ms;
      sleep_time = default_sleeptime_ms;
      potential_peers = [];
      data_to_send = [];
      connect_thread = ConnectPc.not_started;
      send_thread = ThreadPc.not_started;
      listen_thread = ThreadPc.not_started;
      callbacks = no_callbacks;
      create_new_socket = default_new_socket;
      data_access = false;
      callback_access = false;
      peers = [];
      connection_counter = counter;
      store = m';
      events = [];
    }
