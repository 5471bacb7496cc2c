-- ===== src/TcpNodePrivate/Requests.antt =====
-- src/TcpNodePrivate.cpp: what a user asks of the connections. A request sets flags or fills a
-- queue for the threads, and starts a thread that does not run yet.
use simpwire.Prelude.{
  ℕ, Bool, true, false, not, none, some, [], ◌∷◌, ◌++◌, map, Text, codes, to_string, ltb,
  if◌then◌else◌,
}
use simpwire.Common.{IpVersion}
use simpwire.ISocket.{ISocket, Bytes}
use simpwire.Store.{ok, fault, out_of_range}
use simpwire.PeerPrivate.{peer_was_disconnected, new_peer_private, schedule_delete}
use simpwire.Peer.{Peer, id, ip_address, port}
use simpwire.TcpNodePrivate.State.{PeerList, ConnectPc, ThreadPc, Callback, of_message}
use simpwire.TcpNodePrivate.Monad.{
  Action, pure, ◌>>=◌, ◌>>◌, gets, modify, when, lock_data, unlock_data, lock_callback,
  unlock_callback, invoke, notify_listen, notify_connect, notify_send,
}
use simpwire.TcpNodePrivate.Map.{find, modify_at}
use simpwire.TcpNodePrivate.Messages.{create_error_message}

-- TcpNodePrivate::_peerExists
unfoldable pub peer_exists : ℕ → PeerList → Bool
peer_exists k ps = elim (find k ps) [ none ↦ false | some p ↦ p.valid ]

abbrev pub schedule_all : PeerList → PeerList
schedule_all = map λ e. (e.0, schedule_delete peer_was_disconnected e.1)

-- The loop of `latestPeer`, from the greatest id so far.
unfoldable pub max_id : ℕ → PeerList → ℕ
max_id max [] = max
max_id max ((current, p) ∷ ps) = max_id (if ltb max current then current else max) ps

unfoldable pub is_empty : PeerList → Bool
is_empty [] = true
is_empty (e ∷ ps) = false

module _ {I : ISocket} where
  unfoldable pub launch_listen_thread : Action I (Unit {0})
  launch_listen_thread = do
    modify λ s. record s { listen_thread_running = true }
    lock_data
    modify λ s. record s { listen_thread = ThreadPc.at_top }
    unlock_data

  -- TcpNodePrivate::_startListenThreadIfNotRunning
  unfoldable pub start_listen_thread : Action I (Unit {0})
  start_listen_thread = do
    running ← gets λ s. s.listen_thread_running
    when (not running) launch_listen_thread

  unfoldable pub change_listener : Action I (Unit {0})
  change_listener = modify λ s. record s { changing_listener = true }

  unfoldable pub do_listen : ℕ → IpVersion → Action I (Unit {0})
  do_listen port ipv = do
    lock_data
    modify λ s. record s { portnumber = port; listening_enabled = true }
    available ← gets λ s. s.listener_available
    when available change_listener
    modify λ s. record s { ip_version = ipv; wakeup_listen_thread = true }
    unlock_data
    notify_listen
    start_listen_thread

  unfoldable pub request_stop : Action I (Unit {0})
  request_stop = do
    modify λ s. record s { listening_enabled = false; wakeup_listen_thread = true }
    notify_listen

  unfoldable pub stop_listening : Action I (Unit {0})
  stop_listening = do running ← gets λ s. s.listen_thread_running; when running request_stop

  unfoldable pub start_connect_thread : Action I (Unit {0})
  start_connect_thread =
      modify λ s. record s { connect_thread_running = true; connect_thread = ConnectPc.at_top }

  unfoldable pub connect_to : Text → ℕ → Action I (Unit {0})
  connect_to ipaddr port = do
    lock_data
    running ← gets λ s. s.connect_thread_running
    when (not running) start_connect_thread
    modify λ s. record s { potential_peers = s.potential_peers ++ (ipaddr, port) ∷ [] }
    unlock_data
    notify_connect
    start_listen_thread

  unfoldable pub report_refused : Callback → Peer → Action I (Unit {0})
  report_refused none pr = pure tt
  report_refused (some f) pr = do
    msg ←
        create_error_message (codes "Send Error")
          (codes "Cannot send. Not connected to"
            ++ (ip_address pr ++ (codes ":" ++ (to_string (port pr) ++ codes "."))))
          none
    invoke f (of_message msg)

  -- The error callback runs under both mutexes.
  unfoldable pub send_refused : Peer → Action I (Unit {0})
  send_refused pr = do
    lock_callback
    f ← gets λ s. s.callbacks.send_error
    report_refused f pr
    unlock_callback

  unfoldable pub start_send_thread : Action I (Unit {0})
  start_send_thread =
      modify λ s. record s { send_thread_running = true; send_thread = ThreadPc.at_top }

  -- The buffer goes to the end of the queue, and the send thread is started if need be.
  unfoldable pub send_queued : Peer → Bytes → Action I (Unit {0})
  send_queued pr dat = do
    running ← gets λ s. s.send_thread_running
    when (not running) start_send_thread
    modify λ s. record s { data_to_send = s.data_to_send ++ (id pr, dat) ∷ [] }

  unfoldable pub send_data : Peer → Bytes → Action I (Unit {0})
  send_data pr dat = do
    lock_data
    known ← gets λ s. peer_exists (id pr) s.peers
    if known then send_queued pr dat else send_refused pr
    unlock_data
    when known notify_send

  unfoldable pub schedule_peer : ℕ → Action I (Unit {0})
  schedule_peer k =
      modify λ s. record s { peers = modify_at k (schedule_delete peer_was_disconnected) s.peers }

  unfoldable pub disconnect_peer : Peer → Action I (Unit {0})
  disconnect_peer pr = do
    lock_data
    known ← gets λ s. peer_exists (id pr) s.peers
    when known (schedule_peer (id pr))
    unlock_data

  unfoldable pub disconnect_all : Action I (Unit {0})
  disconnect_all = do lock_data; modify λ s. record s { peers = schedule_all s.peers }; unlock_data

  -- std::unordered_map::at throws where the key is missing.
  unfoldable pub at : ℕ → PeerList → Action I Peer
  at k ps s = elim (find k ps) [ none ↦ fault out_of_range | some p ↦ ok (some p, s) ]

  unfoldable pub latest_peer : Action I Peer
  latest_peer = do
    lock_data
    ps ← gets λ s. s.peers
    r ← if is_empty ps then pure (some new_peer_private) else at (max_id 0 ps) ps
    unlock_data
    pure r
