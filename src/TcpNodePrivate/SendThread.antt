-- ===== src/TcpNodePrivate/SendThread.antt =====
-- src/TcpNodePrivate.cpp, _sendThreadJob and _pauseUntilDataToSendAvailable. The sleep at the end of
-- a turn is left out: it is where other threads run.
use simpwire.Prelude.{
  ℕ, not, ◌||◌, none, some, Option, List, [], ◌∷◌, ◌%◌, codes, length, ◌==◌, ltb, if◌then◌else◌,
}
use simpwire.ISocket.{ISocket, Bytes}
use simpwire.Store.{fault, dangling_pointer}
use simpwire.PeerPrivate.{
  PeerPrivate, peer_was_disconnected_due_to_error, schedule_delete, set_error_message,
}
use simpwire.TcpNodePrivate.State.{Callback, ThreadPc, of_amount, of_message}
use simpwire.TcpNodePrivate.Monad.{
  Action, pure, ◌>>=◌, ◌>>◌, gets, modify, lock_data, unlock_data, lock_callback, unlock_callback,
  call_socket,
}
use simpwire.TcpNodePrivate.Map.{find, modify_at}
use simpwire.TcpNodePrivate.Messages.{create_error_message}
use simpwire.TcpNodePrivate.Notify.{notify}

-- uint8_t
abbrev pub wrap8 : ℕ → ℕ
wrap8 n = n % 256

module _ {I : ISocket} where
  -- No such peer.
  unfoldable pub send_unknown : Action I (Unit {0})
  send_unknown = do
    lock_callback
    f ← gets λ s. s.callbacks.send_error
    msg ← create_error_message (codes "Send Error") (codes "Specified peer does not exist.") none
    notify f (of_message msg)
    unlock_callback

  unfoldable pub send_done : PeerPrivate → ℕ → Action I (Unit {0})
  send_done p bytes_sent = do
    lock_callback
    f ← gets λ s. s.callbacks.sent
    notify f (of_amount p bytes_sent)
    unlock_callback

  -- The callback is tested and never called.
  unfoldable pub send_failed : Callback → ℕ → ℕ → Action I (Unit {0})
  send_failed none k psocket = pure tt
  send_failed (some f) k psocket = do
    errmsg ← create_error_message (codes "Send Error") (codes "Sending Failed") (some psocket)
    modify λ s. record s {
      peers =
          modify_at k
            (λ p. schedule_delete peer_was_disconnected_due_to_error (set_error_message errmsg p))
            s.peers;
    }

  unfoldable pub send_through : ℕ → PeerPrivate → Bytes → Option ℕ → Action I (Unit {0})
  send_through k p dat none = λ s. fault dangling_pointer
  send_through k p dat (some psocket) = do
    bytes_sent ← call_socket (I.send dat) psocket
    f ← gets λ s. s.callbacks.send_error
    if ltb 0 bytes_sent then send_done p bytes_sent else send_failed f k psocket

  -- A peer that is to be deleted is passed over.
  unfoldable pub send_found : ℕ → Bytes → Option PeerPrivate → Action I (Unit {0})
  send_found k dat none = send_unknown
  send_found k dat (some p) = if p.to_be_deleted then pure tt else send_through k p dat p.socket

  -- The first entry of the queue.
  unfoldable pub send_one : ℕ → Bytes → Action I (Unit {0})
  send_one k dat s = send_found k dat (find k s.peers) s

  -- What a turn does with the queue, under the mutex of the data.
  unfoldable pub send_front : List (ℕ × Bytes) → Action I (Unit {0})
  send_front [] = pure tt
  send_front ((k, dat) ∷ q) = do send_one k dat; modify λ s. record s { data_to_send = q }

  unfoldable pub send_process : Action I (Unit {0})
  send_process = do
    lock_data
    q ← gets λ s. s.data_to_send
    send_front q
    unlock_data
    modify λ s. record s { send_thread = ThreadPc.at_top }

  -- `to_send_count` has eight bits; if it is 0 the thread gives the mutex up and waits. In its
  -- wait it looks at the queue, and falls asleep if there is nothing to do.
  unfoldable pub send_turn_at : ThreadPc → Action I (Unit {0})
  send_turn_at ThreadPc.not_started = pure tt
  send_turn_at ThreadPc.finished = pure tt
  send_turn_at ThreadPc.asleep = pure tt
  send_turn_at ThreadPc.at_top = do
    running ← gets λ s. s.send_thread_running
    to_send_count ← gets λ s. wrap8 (length s.data_to_send)
    if not running
        then modify (λ s. record s { send_thread = ThreadPc.finished })
        else if to_send_count == 0
        then modify (λ s. record s { send_thread = ThreadPc.waiting })
        else send_process
  send_turn_at ThreadPc.waiting = do
    go ← gets λ s. not (length s.data_to_send == 0) || s.destructor_called
    if go then send_process else modify (λ s. record s { send_thread = ThreadPc.asleep })

  unfoldable pub send_turn : Action I (Unit {0})
  send_turn s = send_turn_at s.send_thread s
