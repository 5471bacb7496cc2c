-- ===== src/TcpNode/Tests.antt =====
-- Runs of a node.
use simpwire.Prelude.{◌≡◌, ◌⊎◌, inl, none, refl, true, false, ◌≤◌, List, [], ◌∷◌, codes, arith}
use simpwire.TcpNode.Reentry.{takes_data, perform-relocked}
use simpwire.TcpNode.{perform, Call, Step, run}
use simpwire.Store.{fault, relocked_mutex}
use simpwire.Common.{any}
use simpwire.Samples.{
  busy_state, busy_state-Inv, easy_network, easy_sleep, easy_socket, easy_ticks, empty_store,
  first_state,
}
use simpwire.TcpNodePrivate.State.{State, new_node, ConnectPc, ThreadPc}
use simpwire.TcpNode.Destruction.{Turn, of_connect, of_send, of_listen, destruct, destruct-finished}
use simpwire.TcpNodePrivate.Contracts.{Ends}
use simpwire.TcpNodePrivate.Invariant.{Inv}
use simpwire.TcpNode.Safety.{run-Inv, new_node-Inv}

-- A node listens, connects, sends, and is destroyed.
abbrev pub one_of_each : List Step
one_of_each =
    Step.call (Call.do_listen 80 any)
    ∷ Step.listen_thread
    ∷ Step.call (Call.connect_to (codes "::1") 80)
    ∷ Step.listen_thread
    ∷ Step.connect_thread
    ∷ Step.connect_thread
    ∷ Step.connect_thread
    ∷ Step.call Call.latest_peer
    ∷ Step.call Call.disconnect_all
    ∷ Step.listen_thread
    ∷ Step.listen_thread
    ∷ Step.stop_connect_thread
    ∷ []

run-Inv_example :
    Ends
      (λ _ t. Inv t × (t.connection_counter ≤ 12))
      (run {I = easy_network} easy_sleep one_of_each first_state)
unfolding new_node
run-Inv_example =
    run-Inv {I = easy_network} easy_sleep easy_ticks one_of_each first_state
      (new_node-Inv {I = easy_network} easy_socket any 0 empty_store) (omega arith)

new_node-Inv_example : Inv (new_node {I = easy_network} easy_socket any 0 empty_store)
new_node-Inv_example = new_node-Inv {I = easy_network} easy_socket any 0 empty_store

perform-relocked_example :
    (takes_data Call.all_peers ≡ true
      → perform Call.all_peers (record first_state { data_access = true }) ≡ fault relocked_mutex)
    × (takes_data Call.all_peers ≡ false
        → Ends
            (λ _ t. t.data_access ≡ true)
            (perform Call.all_peers (record first_state { data_access = true })))
unfolding new_node
perform-relocked_example =
    perform-relocked Call.all_peers (record first_state { data_access = true }) refl refl

-- The connect thread has two attempts left, and the others are asleep.
abbrev sleepy_state : State easy_network
sleepy_state = record busy_state {
  data_to_send = [];
  send_thread = ThreadPc.asleep;
  listen_thread_running = true;
  listen_thread = ThreadPc.asleep;
}

sleepy_state-Inv : Inv sleepy_state
unfolding new_node
sleepy_state-Inv = record {
  data_free = refl;
  callback_free = refl;
  core = record {
    listener_lives = busy_state-Inv.core.listener_lives;
    listener_below = busy_state-Inv.core.listener_below;
    owned = busy_state-Inv.core.owned;
    pending = tt;
  };
}

-- Two attempts are left, and the other threads run in between.
abbrev during_connect_join : List Turn
during_connect_join =
    of_connect ∷ of_send ∷ of_connect ∷ of_listen ∷ of_connect ∷ of_send ∷ of_connect ∷ []

abbrev during_send_join : List Turn
during_send_join = of_send ∷ of_listen ∷ of_send ∷ []

destruct-finished_example :
    Ends
      (λ _ t.
        (t.connect_thread ≡ ConnectPc.finished ⊎ t.connect_thread ≡ ConnectPc.not_started)
        × (t.send_thread ≡ ThreadPc.finished ⊎ t.send_thread ≡ ThreadPc.not_started)
        × (t.listen_thread ≡ ThreadPc.finished ⊎ t.listen_thread ≡ ThreadPc.not_started)
        × (t.store.cell 0 ≡ none))
      (destruct {I = easy_network} easy_sleep during_connect_join during_send_join
        (of_listen ∷ [])
        sleepy_state)
unfolding new_node
destruct-finished_example =
    destruct-finished {I = easy_network} easy_sleep easy_ticks during_connect_join during_send_join
      (of_listen ∷ []) sleepy_state sleepy_state-Inv (inl refl) (inl refl) (inl refl) (omega arith)
      (omega arith) (omega arith) (omega arith)
