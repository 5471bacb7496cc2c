-- ===== src/TcpNodePrivate/Tests.antt =====
-- The theorems of the node at sample states.
use simpwire.Prelude.{
  ◌%◌, ◌≢◌, length, ℕ, none, true, ◌++◌, some, ◌≤◌, ◌⊎◌, ◌≡◌, refl, [], ◌∷◌, codes, arith, All,
  ◌==◌, if◌then◌else◌,
}
use simpwire.TcpNodePrivate.Invariant.{Inv, Sound}
use simpwire.TcpNodePrivate.Replacement.{set_listener-Inv}
use simpwire.TcpNodePrivate.Settings.{set_listener}
use simpwire.TcpNodePrivate.Latest.{latest_peer-same, latest_peer-find}
use simpwire.Store.{update, ok, new_object}
use simpwire.TcpNodePrivate.Reception.{Judged, reported, receive_one-Judged}
use simpwire.TcpNodePrivate.Receive.{receive_one}
use simpwire.ISocket.{ReceiveResult}
use simpwire.TcpNodePrivate.Delivery.{given, send_process-given}
use simpwire.TcpNodePrivate.SendThread.{send_process, send_turn}
use simpwire.TcpNodePrivate.Removal.{told, delete_next-events}
use simpwire.TcpNodePrivate.Remove.{next_scheduled, delete_next}
use simpwire.TcpNodePrivate.Map.{erase, find}
use simpwire.TcpNodePrivate.State.{State, new_node, no_callbacks, ConnectPc, ThreadPc}
use simpwire.PeerPrivate.{PeerPrivate, new_peer_private, peer_was_disconnected}
use simpwire.TcpNodePrivate.Queued.{Queued, send_data-Queued}
use simpwire.Samples.{
  first_peer, easy_network, easy_sleep, easy_ticks, busy_state, busy_state-Inv, small_os,
  failed_socket, failed_state,
}
use simpwire.Socket.Class.{socket_class}
use simpwire.TcpNodePrivate.Messages.{create_error_message, error_suffix}
use simpwire.TcpNodePrivate.Contracts.{Ends, Frame}
use simpwire.Peer.{id}
use simpwire.TcpNodePrivate.Drain.{disconnect_then_delete, disconnect_then_delete-peers}
use simpwire.TcpNodePrivate.Refusal.{Refused, send_data-Refused}
use simpwire.TcpNodePrivate.Requests.{latest_peer, schedule_all, send_data, peer_exists}
use simpwire.TcpNodePrivate.Destructor.{after_joins}
use simpwire.TcpNodePrivate.ConnectThread.{connect_loop, connect_rounds}
use simpwire.TcpNodePrivate.Retry.{connect_turns, connect_turns-potential_peers}
use simpwire.TcpNodePrivate.SendOrder.{send_process-data_to_send, send_turn-send_process}
use simpwire.TcpNodePrivate.Leak.{Exists, after_joins-peers}
use simpwire.TcpNodePrivate.ErrorTexts.{create_error_message-body}
use simpwire.TcpNodePrivate.Safety.ConnectLoop.{connect_loop-Frame}
mod Peers

at_top-Inv : Inv (record busy_state { connect_thread = ConnectPc.at_top })
unfolding new_node
at_top-Inv = record {
  data_free = refl;
  callback_free = refl;
  core = record {
    listener_lives = busy_state-Inv.core.listener_lives;
    listener_below = busy_state-Inv.core.listener_below;
    owned = busy_state-Inv.core.owned;
    pending = tt;
  };
}

connect_turns-potential_peers_example :
    Ends
      (λ _ t. (t.potential_peers ≡ (codes "::2", 81) ∷ []) × (t.connect_thread ≡ ConnectPc.at_top))
      (connect_turns {I = easy_network} easy_sleep easy_ticks 4
        (record busy_state { connect_thread = ConnectPc.at_top }))
unfolding new_node
connect_turns-potential_peers_example =
    connect_turns-potential_peers {I = easy_network} easy_sleep easy_ticks (codes "::1", 80)
      ((codes "::2", 81) ∷ []) (record busy_state { connect_thread = ConnectPc.at_top }) at_top-Inv
      refl refl refl (omega arith)

send_process-data_to_send_example :
    Ends
      (λ _ t. (t.data_to_send ≡ (4, 8 ∷ []) ∷ []) × (t.send_thread ≡ ThreadPc.at_top))
      (send_process {I = easy_network} busy_state)
unfolding new_node
send_process-data_to_send_example =
    send_process-data_to_send {I = easy_network} 1 (7 ∷ []) ((4, 8 ∷ []) ∷ []) busy_state
      busy_state-Inv refl

send_turn-send_process_example :
    (length busy_state.data_to_send % 256 ≢ 0
      → send_turn {I = easy_network} busy_state ≡ send_process busy_state)
    × (length busy_state.data_to_send % 256 ≡ 0
        → (send_turn {I = easy_network} busy_state
            ≡ ok (tt, record busy_state { send_thread = ThreadPc.waiting }))
          × (send_turn {I = easy_network} (record busy_state { send_thread = ThreadPc.waiting })
              ≡ send_process (record busy_state { send_thread = ThreadPc.waiting })))
unfolding new_node
send_turn-send_process_example =
    send_turn-send_process {I = easy_network} busy_state refl refl λ e. cc

after_joins-peers_example :
    Ends
      (λ _ t.
        (t.store.cell 0 ≡ none)
        × (t.peers ≡ schedule_all busy_state.peers)
        × All (λ e. Exists t.store e.1.socket) t.peers)
      (after_joins {I = easy_network} busy_state)
unfolding new_node
after_joins-peers_example = after_joins-peers {I = easy_network} busy_state busy_state-Inv

latest_peer-find_example :
    (p : PeerPrivate) × (latest_peer {I = easy_network} busy_state ≡ ok (some p, busy_state))
    × (find p.connection_id busy_state.peers ≡ some p)
    × All (λ e. e.0 ≤ p.connection_id) busy_state.peers
latest_peer-find_example = latest_peer-find {I = easy_network} busy_state busy_state-Inv λ e. cc

create_error_message-body_example :
    Ends
      (λ msg t.
        (msg.head ≡ codes "Connect Error")
        × (msg.body ≡ (
            if failed_socket.last_errno == 0
            then codes "Failed"
            else codes "Failed" ++ error_suffix failed_socket.last_errno []))
        × (t.store.cell 0 ≡ some (record failed_socket { last_errno = 0 })))
      (create_error_message {I = socket_class small_os}
        (codes "Connect Error")
        (codes "Failed")
        (some 0)
        failed_state)
unfolding new_node new_object
create_error_message-body_example =
    create_error_message-body small_os (codes "Connect Error") (codes "Failed") 0 failed_socket
      failed_state refl

disconnect_then_delete-peers_example :
    Ends (λ _ t. t.peers ≡ []) (disconnect_then_delete {I = easy_network} 1 busy_state)
unfolding new_node
disconnect_then_delete-peers_example =
    disconnect_then_delete-peers {I = easy_network} busy_state busy_state-Inv

-- The busy state with a function for send errors.
abbrev heard_state : State easy_network
heard_state = record busy_state { callbacks = record no_callbacks { send_error = some 9 } }

heard_state-Inv : Inv heard_state
unfolding new_node
heard_state-Inv = record {
  data_free = refl;
  callback_free = refl;
  core = record {
    listener_lives = busy_state-Inv.core.listener_lives;
    listener_below = busy_state-Inv.core.listener_below;
    owned = busy_state-Inv.core.owned;
    pending = busy_state-Inv.core.pending;
  };
}

send_data-Refused_example :
    Ends (λ _ t. Refused 9 heard_state t) (send_data {I = easy_network} none (7 ∷ []) heard_state)
unfolding new_node peer_exists find id
send_data-Refused_example =
    send_data-Refused {I = easy_network} 9 none (7 ∷ []) heard_state heard_state-Inv refl refl

send_data-Queued_example :
    Ends (λ _ t. Queued 1 (7 ∷ []) busy_state t) (send_data (some first_peer) (7 ∷ []) busy_state)
unfolding new_node find
send_data-Queued_example =
    send_data-Queued {I = easy_network} 1 first_peer (7 ∷ []) busy_state busy_state-Inv refl
