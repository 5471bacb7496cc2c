-- ===== src/TcpNodePrivate/ConnectThread.antt =====
-- src/TcpNodePrivate.cpp, _connectThreadJob and _pauseUntilQueueNotEmpty. The thread's position is a
-- `ConnectPc`, and `connect_turn` goes on to the next one. An attempt is one turn: it reads and
-- writes the shared data at its beginning and at its end only.
use simpwire.Prelude.{
  ℕ, zero, suc, Bool, true, false, not, ◌&&◌, ◌||◌, none, some, [], ◌∷◌, ◌+◌, ◌*◌, ◌/◌, ◌++◌, Text,
  codes, to_string, length, ◌==◌, leb, if◌then◌else◌, ℤ, pos, negsuc, ◌+ℤ◌,
}
use simpwire.ISocket.{ISocket}
use simpwire.Store.{ok, fault, empty_front, out_of_fuel}
use simpwire.TcpNodePrivate.State.{Callback, ConnectPc, Arguments, of_peer, of_message}
use simpwire.TcpNodePrivate.Monad.{
  Action, pure, ◌>>=◌, ◌>>◌, gets, modify, lock_data, unlock_data, lock_callback, unlock_callback,
  invoke, call_socket, delete_socket, adopt_socket, notify_listen,
}
use simpwire.TcpNodePrivate.Map.{insert}
use simpwire.TcpNodePrivate.Messages.{create_error_message}
use simpwire.TcpNodePrivate.Accept.{make_peer, next_id}

-- `timeup`: the whole milliseconds of the elapsed nanoseconds, rounded towards 0, against the
-- timeout. Both may be negative.
unfoldable pub is_timeup : ℤ → ℤ → Bool
is_timeup (pos ms) (pos ns) = leb ms (ns / 1_000_000)
is_timeup (pos ms) (negsuc n) = ms + (n + 1) / 1_000_000 == 0
is_timeup (negsuc k) (pos ns) = true
is_timeup (negsuc k) (negsuc n) = leb ((n + 1) / 1_000_000) (k + 1)

-- More rounds than the loop of an attempt can make, if each takes a nanosecond at least.
unfoldable pub connect_rounds : ℤ → ℕ
connect_rounds (pos ms) = suc (ms * 1_000_000)
connect_rounds (negsuc n) = 1

-- How a user's function is called here: under the mutex of the callbacks, which is held already.
unfoldable pub notify_locked : {I : ISocket} → Callback → Arguments → Action I (Unit {0})
notify_locked none args = pure tt
notify_locked (some f) args = invoke f args

-- `sleep_for` is std::this_thread::sleep_for between two readings of the clock: what was measured,
-- in nanoseconds. The clock may stand still or be set back, so it may be 0 or negative. The sum of
-- these, a double in the code, is exact here.
module _ {I : ISocket} (sleep_for : ℤ → I.World → ℤ × I.World) where
  unfoldable pub sleep : Action I ℤ
  sleep s =
      let (ns, w) = sleep_for s.sleep_time s.store.world in
      ok (ns, record s { store = record s.store { world = w } })

  -- The do-while loop of an attempt: whether it connected. The fuel bounds its rounds.
  unfoldable pub connect_loop : ℕ → ℕ → Text → ℕ → ℤ → Action I Bool
  connect_loop zero new_peer ip port elapsed = λ s. fault out_of_fuel
  connect_loop (suc fuel) new_peer ip port elapsed = do
    connect_success ← call_socket (I.connect ip port) new_peer
    errornum ← call_socket I.get_last_errno new_peer
    ns ← sleep
    timeout ← gets λ s. s.connect_timeout
    elim (not connect_success && errornum == 0 && not (is_timeup timeout (elapsed +ℤ ns))) [
      | true ↦ connect_loop fuel new_peer ip port (elapsed +ℤ ns)
      | false ↦ pure connect_success
    ]

module _ {I : ISocket} where
  unfoldable pub create_socket : Action I ℕ
  create_socket s =
      let (o, w) = s.create_new_socket s.store.world in
      adopt_socket o (record s { store = record s.store { world = w } })

  -- `front()` of the queue.
  unfoldable pub front : Action I (Text × ℕ)
  front s = elim s.potential_peers [ [] ↦ fault empty_front | e ∷ q ↦ ok (e, s) ]

  -- `pop_front()`
  unfoldable pub pop_front : Action I (Unit {0})
  pop_front s = elim s.potential_peers [
    | [] ↦ fault empty_front
    | e ∷ q ↦ ok (tt, record s { potential_peers = q })
  ]

  unfoldable pub report_connect_error : Callback → Text → ℕ → ℕ → Action I (Unit {0})
  report_connect_error none ip port new_peer = pure tt
  report_connect_error (some f) ip port new_peer = do
    msg ←
        create_error_message (codes "Connect Error")
          (codes "Failed to connect to " ++ (ip ++ (codes ":" ++ to_string port))) (some new_peer)
    invoke f (of_message msg)

  unfoldable pub connect_failed : Text → ℕ → ℕ → Action I (Unit {0})
  connect_failed ip port new_peer = do
    lock_callback
    f ← gets λ s. s.callbacks.connect_error
    report_connect_error f ip port new_peer
    delete_socket new_peer
    unlock_callback

  unfoldable pub connected : ℕ → Action I (Unit {0})
  connected new_peer = do
    lock_data
    current_count ← next_id
    pr ← make_peer current_count new_peer
    modify λ s. record s { peers = insert current_count pr s.peers }
    unlock_data
    lock_callback
    f ← gets λ s. s.callbacks.connected_to_new_peer
    notify_locked f (of_peer pr)
    notify_listen
    unlock_callback

module _ {I : ISocket} (sleep_for : ℤ → I.World → ℤ × I.World) where
  -- The body of the loop over the queue.
  unfoldable pub connect_attempt : Action I (Unit {0})
  connect_attempt = do
    new_peer ← create_socket
    lock_data
    (ip, port) ← front
    unlock_data
    rounds ← gets λ s. connect_rounds s.connect_timeout
    connect_success ← connect_loop sleep_for rounds new_peer ip port (pos 0)
    if connect_success then connected new_peer else connect_failed ip port new_peer

  -- A thread in its wait looks at the condition, and falls asleep if it fails. That is one step, as
  -- it is for whoever takes the mutex of the data before he notifies.
  unfoldable pub connect_turn_at : ConnectPc → Action I (Unit {0})
  connect_turn_at ConnectPc.not_started = pure tt
  connect_turn_at ConnectPc.finished = pure tt
  connect_turn_at ConnectPc.asleep = pure tt
  connect_turn_at ConnectPc.at_top = do
    running ← gets λ s. s.connect_thread_running
    lock_data
    queue_length ← gets λ s. length s.potential_peers
    unlock_data
    modify λ s. record s {
      connect_thread =
          if running
          then if queue_length == 0 then ConnectPc.waiting else ConnectPc.trying queue_length
          else ConnectPc.finished;
    }
  connect_turn_at ConnectPc.waiting = modify λ s. record s {
    connect_thread =
        if not (length s.potential_peers == 0) || s.destructor_called
        then ConnectPc.at_top
        else ConnectPc.asleep;
  }
  connect_turn_at (ConnectPc.trying zero) = do
    modify λ s. record s { connect_thread = ConnectPc.at_top }
    lock_data
    pop_front
    unlock_data
  connect_turn_at (ConnectPc.trying (suc i)) = do
    modify λ s. record s { connect_thread = ConnectPc.trying i }
    connect_attempt

  -- The next turn of the connect thread. One that is asleep is woken by a notification only.
  unfoldable pub connect_turn : Action I (Unit {0})
  connect_turn s = connect_turn_at s.connect_thread s
