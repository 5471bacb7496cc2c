-- ===== src/TcpNode/Safety.antt =====
-- Every run of a node ends without a fault.
use simpwire.Prelude.{
  IsPositive, ℕ, suc, ◌+◌, ◌≤◌, ◌<◌, ◌^◌, refl, Bool, false, ℤ, List, [], ◌∷◌, arith, length,
}
use simpwire.Common.{IpVersion}
use simpwire.ISocket.{ISocket}
use simpwire.Store.{Store, Result, ok, fault, new_object}
use simpwire.TcpNodePrivate.State.{State, new_node}
use simpwire.TcpNodePrivate.Contracts.{Ends, Ends-bind, Ends-mono}
use simpwire.TcpNodePrivate.Invariant.{Inv}
use simpwire.TcpNodePrivate.Sections.{Sect, Sect-Frame, Sect-Inv, Inv-Sect, Sect-later}
use simpwire.TcpNodePrivate.Safety.ListenThread.{listen_turn-Sect}
use simpwire.TcpNodePrivate.Safety.ConnectThread.{connect_turn-Sect}
use simpwire.TcpNodePrivate.Safety.SendThread.{send_turn-Sect}
use simpwire.TcpNodePrivate.Settings.{
  is_listening, listen_port, on_started_listening, on_stopped_listening, on_accept, on_receive,
  on_disconnect, on_closed_connection, on_connect, on_send, on_listen_error, on_send_error,
  on_connect_error, on_faulty_connection_closed, connect_timeout, set_connect_timeout,
  set_sleep_time,
}
use simpwire.TcpNodePrivate.Destructor.{stop_connect_thread, stop_send_thread, stop_listen_thread}
use simpwire.TcpNode.{Call, Answer, perform, Step, step, run}
use simpwire.TcpNode.Calls.{
  Kept, set_callback-Sect, do_listen-Sect, stop_listening-Sect, connect_to-Sect, send_data-Sect,
  disconnect_peer-Sect, disconnect_all-Sect, receive_buffer_size-Sect, set_receive_buffer_size-Sect,
  latest_peer-Sect, all_peers-Sect,
}
use simpwire.TcpNodePrivate.Safety.Positions.{stop_connect_thread-Sect}

module _ {I : ISocket} where
  -- A new node has the invariant.
  pub new_node-Inv :
      (create : I.World → I.Sock × I.World) (ipv : IpVersion) (counter : ℕ) (m : Store I)
      → Inv (new_node create ipv counter m)
  unfolding new_node new_object
  new_node-Inv create ipv counter m = record {
    data_free = refl;
    callback_free = refl;
    core = record {
      listener_lives = ground arith;
      listener_below = ground arith;
      owned = tt;
      pending = tt;
    };
  }

  timeout-Sect :
      {d c : Bool} {n l : ℕ} (ms : ℤ) (s : State I)
      → Sect d c n l s
      → Sect d c n l (record s { connect_timeout = ms })
  timeout-Sect ms s h = record {
    data_lock = h.data_lock;
    callback_lock = h.callback_lock;
    counted = h.counted;
    listener = h.listener;
    core = record {
      listener_lives = h.core.listener_lives;
      listener_below = h.core.listener_below;
      owned = h.core.owned;
      pending = h.core.pending;
    };
  }

  answer :
      {A : Type 0} {n l : ℕ} (f : A → Answer) {r : Result (A × State I)}
      → Kept n l r
      → Kept n l (elim r [ fault e ↦ fault e | ok (a, t) ↦ ok (f a, t) ])
  answer f h = Ends-bind _ h λ a t ht. record { holds = ht }

  pub perform-Sect :
      {n l : ℕ} (c : Call) (s : State I) → Sect false false n l s → Kept n l (perform c s)
  unfolding perform is_listening listen_port connect_timeout set_connect_timeout set_sleep_time
      on_started_listening on_stopped_listening on_accept on_receive on_disconnect
      on_closed_connection on_connect on_send on_listen_error on_send_error on_connect_error
      on_faulty_connection_closed
  perform-Sect (Call.do_listen port ipv) s h = answer _ (do_listen-Sect port ipv s h)
  perform-Sect Call.stop_listening s h = answer _ (stop_listening-Sect s h)
  perform-Sect Call.is_listening s h = record { holds = h }
  perform-Sect (Call.connect_to ipaddr port) s h = answer _ (connect_to-Sect ipaddr port s h)
  perform-Sect (Call.send_data pr dat) s h = answer _ (send_data-Sect pr dat s h)
  perform-Sect Call.listen_port s h = record { holds = h }
  perform-Sect (Call.disconnect_peer pr) s h = answer _ (disconnect_peer-Sect pr s h)
  perform-Sect Call.disconnect_all s h = answer _ (disconnect_all-Sect s h)
  perform-Sect Call.connect_timeout s h = record { holds = h }
  perform-Sect (Call.set_connect_timeout ms) s h = record { holds = timeout-Sect ms s h }
  perform-Sect (Call.set_sleep_time ms) s h = record {
    holds = Sect-Frame {t = record s { sleep_time = ms }} h (ground arith);
  }
  perform-Sect Call.receive_buffer_size s h = answer _ (receive_buffer_size-Sect s h)
  perform-Sect (Call.set_receive_buffer_size k) s h = answer _ (set_receive_buffer_size-Sect k s h)
  perform-Sect Call.latest_peer s h = answer _ (latest_peer-Sect s h)
  perform-Sect Call.all_peers s h = answer _ (all_peers-Sect s h)
  perform-Sect (Call.on_started_listening f) s h = answer _ (set_callback-Sect _ s h)
  perform-Sect (Call.on_stopped_listening f) s h = answer _ (set_callback-Sect _ s h)
  perform-Sect (Call.on_accept f) s h = answer _ (set_callback-Sect _ s h)
  perform-Sect (Call.on_receive f) s h = answer _ (set_callback-Sect _ s h)
  perform-Sect (Call.on_disconnect f) s h = answer _ (set_callback-Sect _ s h)
  perform-Sect (Call.on_closed_connection f) s h = answer _ (set_callback-Sect _ s h)
  perform-Sect (Call.on_connect f) s h = answer _ (set_callback-Sect _ s h)
  perform-Sect (Call.on_send f) s h = answer _ (set_callback-Sect _ s h)
  perform-Sect (Call.on_listen_error f) s h = answer _ (set_callback-Sect _ s h)
  perform-Sect (Call.on_send_error f) s h = answer _ (set_callback-Sect _ s h)
  perform-Sect (Call.on_connect_error f) s h = answer _ (set_callback-Sect _ s h)
  perform-Sect (Call.on_faulty_connection_closed f) s h = answer _ (set_callback-Sect _ s h)

module _ {I : ISocket} (sleep_for : ℤ → I.World → ℤ × I.World)
    (ticks : (ms : ℤ) (w : I.World) → IsPositive (sleep_for ms w).0) where
  step-Sect :
      {n l : ℕ} (x : Step) (s : State I)
      → Sect false false n l s
      → n + 1 < 2 ^ 64
      → Ends (λ _ t. Sect false false (suc n) l t) (step sleep_for x s)
  unfolding step stop_connect_thread stop_send_thread stop_listen_thread
  step-Sect (Step.call c) s h fits =
      Ends-bind _ (perform-Sect c s h) λ r t ht. record { holds = Sect-later ht }
  step-Sect Step.listen_thread s h fits = listen_turn-Sect s h fits
  step-Sect Step.connect_thread s h fits =
      connect_turn-Sect sleep_for ticks s h (omega (arith, h.counted))
  step-Sect Step.send_thread s h fits = Ends-mono (send_turn-Sect s h) λ _ t ht. Sect-later ht
  step-Sect Step.stop_connect_thread s h fits = record {
    holds = Sect-later (stop_connect_thread-Sect s h);
  }
  step-Sect Step.stop_send_thread s h fits = record {
    holds = Sect-later (Sect-Frame {t = stop_send_thread s} h (ground arith));
  }
  step-Sect Step.stop_listen_thread s h fits = record {
    holds = Sect-later (Sect-Frame {t = stop_listen_thread s} h (ground arith));
  }

  run-Sect :
      {n l : ℕ} (xs : List Step) (s : State I)
      → Sect false false n l s
      → n + length xs < 2 ^ 64
      → Ends (λ _ t. Inv t × (t.connection_counter ≤ n + length xs)) (run sleep_for xs s)
  unfolding run
  run-Sect [] s h fits = record { holds = (Inv-Sect h, omega (arith, h.counted)) }
  run-Sect (x ∷ xs) s h fits =
      Ends-bind _ (step-Sect x s h (omega arith))
        λ _ t ht. Ends-mono (run-Sect xs t ht (omega arith)) λ _ u (hu, c). (hu, omega (arith, c))

  -- From a state with the invariant, for any list of calls of the user, turns of the three threads
  -- and parts of the destructor that come before its last join, in any order, while the list is
  -- shorter than what the counter of connections has left of its 64 bits, and if every sleep takes
  -- time: the run ends without a fault, that is, it follows no dangling pointer, deletes nothing
  -- twice, locks no mutex that is held and unlocks none that is not, takes nothing from an empty
  -- queue or from a key that the map lacks, and does not run out of the rounds of its loops. The
  -- invariant holds again, and the counter has grown by the length of the list at most.
  pub run-Inv :
      (xs : List Step) (s : State I)
      → Inv s
      → s.connection_counter + length xs < 2 ^ 64
      → Ends
          (λ _ t. Inv t × (t.connection_counter ≤ s.connection_counter + length xs))
          (run sleep_for xs s)
  run-Inv xs s h fits = run-Sect xs s (Sect-Inv h) fits
