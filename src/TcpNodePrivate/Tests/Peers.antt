-- ===== src/TcpNodePrivate/Tests/Peers.antt =====
-- What becomes of peers, at concrete states.
use simpwire.Prelude.{ℕ, none, true, ◌++◌, some, ◌≡◌, refl, [], ◌∷◌, arith}
use simpwire.TcpNodePrivate.Invariant.{Inv, Sound}
use simpwire.TcpNodePrivate.Replacement.{set_listener-Inv}
use simpwire.TcpNodePrivate.Settings.{set_listener}
use simpwire.TcpNodePrivate.Latest.{latest_peer-same}
use simpwire.Store.{update, ok}
use simpwire.TcpNodePrivate.Reception.{Judged, reported, receive_one-Judged}
use simpwire.TcpNodePrivate.Receive.{receive_one}
use simpwire.ISocket.{ReceiveResult}
use simpwire.TcpNodePrivate.Delivery.{given, send_process-given}
use simpwire.TcpNodePrivate.SendThread.{send_process}
use simpwire.TcpNodePrivate.Removal.{told, delete_next-events}
use simpwire.TcpNodePrivate.Remove.{next_scheduled, delete_next}
use simpwire.TcpNodePrivate.Map.{erase, find}
use simpwire.TcpNodePrivate.State.{State, new_node, no_callbacks}
use simpwire.PeerPrivate.{PeerPrivate, new_peer_private, peer_was_disconnected}
use simpwire.Samples.{first_peer, easy_network, busy_state, busy_state-Inv}
use simpwire.TcpNodePrivate.Contracts.{Ends}
use simpwire.TcpNodePrivate.Requests.{latest_peer}

-- A node with a peer that is to be deleted, and a function for it.
abbrev leaving_peer : PeerPrivate
leaving_peer = record first_peer { to_be_deleted = true; disconn = peer_was_disconnected }

abbrev leaving_state : State easy_network
leaving_state = record busy_state {
  peers = (1, leaving_peer) ∷ [];
  callbacks = record no_callbacks { closed_connection = some 9 };
}

leaving_state-Inv : Inv leaving_state
unfolding new_node new_peer_private
leaving_state-Inv = record {
  data_free = refl;
  callback_free = refl;
  core = record {
    listener_lives = busy_state-Inv.core.listener_lives;
    listener_below = omega arith;
    owned = (
      record {
        own = busy_state-Inv.core.owned.0.own;
        keyed = refl;
        positive = omega arith;
        counted = omega arith;
        valid = refl;
      },
      tt,
      tt,
    );
    pending = tt;
  };
}

delete_next-events_example :
    Ends
      (λ _ t.
        (t.events ≡ told leaving_state.callbacks leaving_peer ++ leaving_state.events)
        × (t.peers ≡ erase 1 leaving_state.peers))
      (delete_next {I = easy_network} (record leaving_state { data_access = true }))
unfolding new_node next_scheduled
delete_next-events_example = delete_next-events 1 leaving_peer leaving_state leaving_state-Inv refl

receive_one-Judged_example :
    Ends
      (λ q t.
        Judged none first_peer q
        × (t.events
            ≡ reported ReceiveResult.ok (7 ∷ []) first_peer busy_state.callbacks
              ++ busy_state.events)
        × (t.peers ≡ busy_state.peers))
      (receive_one {I = easy_network} first_peer (record busy_state { data_access = true }))
unfolding new_node new_peer_private
receive_one-Judged_example =
    receive_one-Judged {I = easy_network} first_peer 1 2 ReceiveResult.ok (7 ∷ [])
      (record busy_state { data_access = true }) refl refl refl refl refl refl refl

send_process-given_example :
    Ends
      (λ _ t. t.store ≡ given 1 2 (7 ∷ []) busy_state.store)
      (send_process {I = easy_network} busy_state)
unfolding new_node find new_peer_private
send_process-given_example =
    send_process-given {I = easy_network} 1 1 2 first_peer (7 ∷ []) ((4, 8 ∷ []) ∷ []) busy_state
      busy_state-Inv refl refl refl refl refl (omega arith)

-- A node with one more socket object.
abbrev spare_state : State easy_network
spare_state = record busy_state {
  store = record {
    cell = update (update (update (λ a. none) 0 (some 1)) 1 (some 2)) 2 (some 0);
    next = 3;
    world = 0;
  };
}

spare_state-Inv : Inv spare_state
unfolding new_node new_peer_private
spare_state-Inv = record {
  data_free = refl;
  callback_free = refl;
  core = record {
    listener_lives = λ e. cc;
    listener_below = omega arith;
    owned = (
      record {
        own = (λ e. cc, omega arith, omega arith);
        keyed = refl;
        positive = omega arith;
        counted = omega arith;
        valid = refl;
      },
      tt,
      tt,
    );
    pending = tt;
  };
}

set_listener-Inv_example :
    Ends
      (λ _ t.
        Inv t
        × (t.listener ≡ 2)
        × (t.store.cell spare_state.listener ≡ none)
        × (t.peers ≡ spare_state.peers))
      (set_listener {I = easy_network} (some 2) spare_state)
unfolding new_node
set_listener-Inv_example =
    set_listener-Inv {I = easy_network} 2 spare_state spare_state-Inv (λ e. cc) (omega arith)
      (λ e. omega (arith, e)) ((λ e. cc), tt)

-- Two peers, in the one order and in the other.
abbrev second_peer : PeerPrivate
second_peer = record first_peer { connection_id = 2; socket = some 2 }

abbrev two_state : State easy_network
two_state = record spare_state {
  connection_counter = 2;
  peers = (1, first_peer) ∷ (2, second_peer) ∷ [];
}

abbrev turned_state : State easy_network
turned_state = record two_state { peers = (2, second_peer) ∷ (1, first_peer) ∷ [] }

first_peer-Sound : Sound two_state.store two_state.listener 2 1 first_peer
unfolding new_node new_peer_private
first_peer-Sound = record {
  own = (λ e. cc, omega arith, omega arith);
  keyed = refl;
  positive = omega arith;
  counted = omega arith;
  valid = refl;
}

second_peer-Sound : Sound two_state.store two_state.listener 2 2 second_peer
unfolding new_node new_peer_private
second_peer-Sound = record {
  own = (λ e. cc, omega arith, omega arith);
  keyed = refl;
  positive = omega arith;
  counted = omega arith;
  valid = refl;
}

two_state-Inv : Inv two_state
unfolding new_node
two_state-Inv = record {
  data_free = refl;
  callback_free = refl;
  core = record {
    listener_lives = λ e. cc;
    listener_below = omega arith;
    owned =
        (first_peer-Sound, ((λ e. omega (arith, e)), (λ e. cc), tt), (second_peer-Sound, tt, tt));
    pending = tt;
  };
}

turned_state-Inv : Inv turned_state
unfolding new_node
turned_state-Inv = record {
  data_free = refl;
  callback_free = refl;
  core = record {
    listener_lives = λ e. cc;
    listener_below = omega arith;
    owned =
        (second_peer-Sound, ((λ e. omega (arith, e)), (λ e. cc), tt), (first_peer-Sound, tt, tt));
    pending = tt;
  };
}

same_peers : (k : ℕ) → find k two_state.peers ≡ find k turned_state.peers
unfolding find
same_peers k = ground arith

latest_peer-same_example :
    (p : PeerPrivate) × (latest_peer {I = easy_network} two_state ≡ ok (some p, two_state))
    × (latest_peer {I = easy_network} turned_state ≡ ok (some p, turned_state))
unfolding new_node
latest_peer-same_example =
    latest_peer-same {I = easy_network} two_state turned_state two_state-Inv turned_state-Inv
      same_peers λ e. cc
