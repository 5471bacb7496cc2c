-- ===== src/TcpNode.antt =====
-- src/TcpNode.cpp: the public class, which passes each call on to the node behind it, and the
-- steps of a running node.
use simpwire.Prelude.{ℕ, Bool, Text, ℤ, List, [], ◌∷◌}
use simpwire.Common.{IpVersion}
use simpwire.ISocket.{ISocket, Bytes}
use simpwire.Store.{ok}
use simpwire.Peer.{Peer}
use simpwire.TcpNodePrivate.State.{State, Callback, PeerList}
use simpwire.TcpNodePrivate.Monad.{Action, modify, pure, ◌>>=◌, ◌>>◌}
use simpwire.TcpNodePrivate.Settings
use simpwire.TcpNodePrivate.Requests
use simpwire.TcpNodePrivate.Destructor
use simpwire.TcpNodePrivate.ListenThread.{listen_turn}
use simpwire.TcpNodePrivate.ConnectThread.{connect_turn}
use simpwire.TcpNodePrivate.SendThread.{send_turn}
pub mod Calls
pub mod Destruction
pub mod Reentry
pub mod Safety
mod Tests

-- A call of a method, with its arguments.
pub data Call : Type 0 where
  do_listen : ℕ → IpVersion → Call
  stop_listening : Call
  is_listening : Call
  connect_to : Text → ℕ → Call
  send_data : Peer → Bytes → Call
  listen_port : Call
  disconnect_peer : Peer → Call
  disconnect_all : Call
  connect_timeout : Call
  set_connect_timeout : ℤ → Call
  set_sleep_time : ℤ → Call
  receive_buffer_size : Call
  set_receive_buffer_size : ℕ → Call
  latest_peer : Call
  all_peers : Call
  on_started_listening : Callback → Call
  on_stopped_listening : Callback → Call
  on_accept : Callback → Call
  on_receive : Callback → Call
  on_disconnect : Callback → Call
  on_closed_connection : Callback → Call
  on_connect : Callback → Call
  on_send : Callback → Call
  on_listen_error : Callback → Call
  on_send_error : Callback → Call
  on_connect_error : Callback → Call
  on_faulty_connection_closed : Callback → Call

-- What a method returns.
pub data Answer : Type 0 where
  nothing : Answer
  truth : Bool → Answer
  number : ℕ → Answer
  integer : ℤ → Answer
  peer : Peer → Answer
  peers : PeerList → Answer

module _ {I : ISocket} where
  abbrev returns : {A : Type 0} → (A → Answer) → Action I A → Action I Answer
  returns f m = m >>= λ a. pure (f a)

  abbrev done : Action I (Unit {0}) → Action I Answer
  done = returns λ _. Answer.nothing

  unfoldable pub perform : Call → Action I Answer
  perform (Call.do_listen port ipv) = done (Requests.do_listen port ipv)
  perform Call.stop_listening = done Requests.stop_listening
  perform Call.is_listening = returns truth Settings.is_listening
  perform (Call.connect_to ipaddr port) = done (Requests.connect_to ipaddr port)
  perform (Call.send_data pr dat) = done (Requests.send_data pr dat)
  perform Call.listen_port = returns number Settings.listen_port
  perform (Call.disconnect_peer pr) = done (Requests.disconnect_peer pr)
  perform Call.disconnect_all = done Requests.disconnect_all
  perform Call.connect_timeout = returns integer Settings.connect_timeout
  perform (Call.set_connect_timeout ms) = done (Settings.set_connect_timeout ms)
  perform (Call.set_sleep_time ms) = done (Settings.set_sleep_time ms)
  perform Call.receive_buffer_size = returns number Settings.receive_buffer_size
  perform (Call.set_receive_buffer_size n) = done (Settings.set_receive_buffer_size n)
  perform Call.latest_peer = returns peer Requests.latest_peer
  perform Call.all_peers = returns peers Settings.all_peers
  perform (Call.on_started_listening f) = done (Settings.on_started_listening f)
  perform (Call.on_stopped_listening f) = done (Settings.on_stopped_listening f)
  perform (Call.on_accept f) = done (Settings.on_accept f)
  perform (Call.on_receive f) = done (Settings.on_receive f)
  perform (Call.on_disconnect f) = done (Settings.on_disconnect f)
  perform (Call.on_closed_connection f) = done (Settings.on_closed_connection f)
  perform (Call.on_connect f) = done (Settings.on_connect f)
  perform (Call.on_send f) = done (Settings.on_send f)
  perform (Call.on_listen_error f) = done (Settings.on_listen_error f)
  perform (Call.on_send_error f) = done (Settings.on_send_error f)
  perform (Call.on_connect_error f) = done (Settings.on_connect_error f)
  perform (Call.on_faulty_connection_closed f) = done (Settings.on_faulty_connection_closed f)

-- The scheduler picks who goes next. The last three are the parts of the destructor that let the
-- threads run on.
pub data Step : Type 0 where
  call : Call → Step
  listen_thread connect_thread send_thread : Step
  stop_connect_thread stop_send_thread stop_listen_thread : Step

module _ {I : ISocket} (sleep_for : ℤ → I.World → ℤ × I.World) where
  unfoldable pub step : Step → Action I (Unit {0})
  step (call c) = do perform c; pure tt
  step listen_thread = listen_turn
  step connect_thread = connect_turn sleep_for
  step send_thread = send_turn
  step Step.stop_connect_thread = modify Destructor.stop_connect_thread
  step Step.stop_send_thread = modify Destructor.stop_send_thread
  step Step.stop_listen_thread = modify Destructor.stop_listen_thread

  unfoldable pub run : List Step → Action I (Unit {0})
  run [] = pure tt
  run (x ∷ xs) = do step x; run xs
