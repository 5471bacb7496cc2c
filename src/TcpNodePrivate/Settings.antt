-- ===== src/TcpNodePrivate/Settings.antt =====
-- src/TcpNodePrivate.cpp: what a user sets and asks outside the connections themselves.
use simpwire.Prelude.{ℕ, true, none, some, Option, Bool, ℤ}
use simpwire.ISocket.{ISocket}
use simpwire.TcpNodePrivate.State.{Callbacks, Callback, PeerList}
use simpwire.TcpNodePrivate.Monad.{
  Action, pure, ◌>>=◌, ◌>>◌, gets, modify, when, lock_data, unlock_data, lock_callback,
  unlock_callback, call_socket, get_socket, delete_socket,
}

module _ {I : ISocket} where
  unfoldable pub is_listening : Action I Bool
  is_listening = gets λ s. s.listening_enabled

  unfoldable pub listen_port : Action I ℕ
  listen_port = gets λ s. s.portnumber

  unfoldable pub all_peers : Action I PeerList
  all_peers = do lock_data; ps ← gets λ s. s.peers; unlock_data; pure ps

  -- The twelve setters below assign one callback under its mutex.
  unfoldable pub set_callback : (Callbacks → Callbacks) → Action I (Unit {0})
  set_callback f = do
    lock_callback
    modify λ s. record s { callbacks = f s.callbacks }
    unlock_callback

  unfoldable pub on_started_listening : Callback → Action I (Unit {0})
  on_started_listening f = set_callback λ c. record c { started_listening = f }

  unfoldable pub on_stopped_listening : Callback → Action I (Unit {0})
  on_stopped_listening f = set_callback λ c. record c { stopped_listening = f }

  unfoldable pub on_accept : Callback → Action I (Unit {0})
  on_accept f = set_callback λ c. record c { new_peer_connected = f }

  unfoldable pub on_receive : Callback → Action I (Unit {0})
  on_receive f = set_callback λ c. record c { received = f }

  unfoldable pub on_disconnect : Callback → Action I (Unit {0})
  on_disconnect f = set_callback λ c. record c { peer_disconnected = f }

  unfoldable pub on_closed_connection : Callback → Action I (Unit {0})
  on_closed_connection f = set_callback λ c. record c { closed_connection = f }

  unfoldable pub on_connect : Callback → Action I (Unit {0})
  on_connect f = set_callback λ c. record c { connected_to_new_peer = f }

  unfoldable pub on_send : Callback → Action I (Unit {0})
  on_send f = set_callback λ c. record c { sent = f }

  unfoldable pub on_listen_error : Callback → Action I (Unit {0})
  on_listen_error f = set_callback λ c. record c { listen_error = f }

  unfoldable pub on_send_error : Callback → Action I (Unit {0})
  on_send_error f = set_callback λ c. record c { send_error = f }

  unfoldable pub on_connect_error : Callback → Action I (Unit {0})
  on_connect_error f = set_callback λ c. record c { connect_error = f }

  unfoldable pub on_faulty_connection_closed : Callback → Action I (Unit {0})
  on_faulty_connection_closed f = set_callback λ c. record c { faulty_connection_closed = f }

  unfoldable pub connect_timeout : Action I ℤ
  connect_timeout = gets λ s. s.connect_timeout

  unfoldable pub set_connect_timeout : ℤ → Action I (Unit {0})
  set_connect_timeout ms = modify λ s. record s { connect_timeout = ms }

  unfoldable pub set_sleep_time : ℤ → Action I (Unit {0})
  set_sleep_time ms = modify λ s. record s { sleep_time = ms }

  -- The listener's buffer size. The pointer to the listener is never null.
  unfoldable pub receive_buffer_size : Action I ℕ
  receive_buffer_size = do
    lock_data
    l ← gets λ s. s.listener
    n ← get_socket I.receive_buffer_size l
    unlock_data
    pure n

  unfoldable pub set_receive_buffer_size : ℕ → Action I (Unit {0})
  set_receive_buffer_size n = do
    lock_data
    l ← gets λ s. s.listener
    call_socket (I.set_receive_buffer_size n) l
    unlock_data

  -- An empty std::function is ignored.
  unfoldable pub set_socket_interface_create_function :
      Option (I.World → I.Sock × I.World) → Action I (Unit {0})
  set_socket_interface_create_function none = do lock_data; unlock_data
  set_socket_interface_create_function (some f) = do
    lock_data
    modify λ s. record s { create_new_socket = f }
    unlock_data

  -- A null pointer is ignored.
  unfoldable pub set_listener : Option ℕ → Action I (Unit {0})
  set_listener none = pure tt
  set_listener (some ifsock) = do
    lock_data
    old ← gets λ s. s.listener
    call_socket I.close old
    delete_socket old
    modify λ s. record s { listener = ifsock }
    enabled ← gets λ s. s.listening_enabled
    when enabled (modify λ s. record s { changing_listener = true })
    unlock_data
