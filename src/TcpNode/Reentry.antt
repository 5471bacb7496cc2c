-- ===== src/TcpNode/Reentry.antt =====
-- Calls of a node's methods from the user's functions, that is, while the calling thread holds
-- mutexes of the node.
use simpwire.TcpNodePrivate.Monad.{notify_listen}
use simpwire.Prelude.{Bool, true, false, ◌≡◌, refl, ap, ◌∙◌, arith}
use simpwire.ISocket.{ISocket}
use simpwire.Store.{Result, ok, fault, relocked_mutex, Fault}
use simpwire.TcpNodePrivate.State.{State, Callbacks}
use simpwire.TcpNodePrivate.Monad.{Action, lock_data, unlock_callback}
use simpwire.TcpNodePrivate.Contracts.{Ends, Ends-bind, Ends-when, Ends-mono}
use simpwire.TcpNodePrivate.Locks.{Ends-lock_callback}
use simpwire.TcpNodePrivate.Settings.{
  is_listening, listen_port, all_peers, set_callback, receive_buffer_size, set_receive_buffer_size,
  connect_timeout, set_connect_timeout, set_sleep_time, on_started_listening, on_stopped_listening,
  on_accept, on_receive, on_disconnect, on_closed_connection, on_connect, on_send, on_listen_error,
  on_send_error, on_connect_error, on_faulty_connection_closed,
}
use simpwire.TcpNodePrivate.Requests.{
  do_listen, stop_listening, request_stop, connect_to, send_data, disconnect_peer, disconnect_all,
  latest_peer,
}
use simpwire.TcpNode.{Call, Answer, perform}

-- The methods that take the mutex of the data.
abbrev pub takes_data : Call → Bool
takes_data (Call.do_listen port ipv) = true
takes_data (Call.connect_to ip port) = true
takes_data (Call.send_data pr dat) = true
takes_data (Call.disconnect_peer pr) = true
takes_data Call.disconnect_all = true
takes_data Call.receive_buffer_size = true
takes_data (Call.set_receive_buffer_size n) = true
takes_data Call.latest_peer = true
takes_data Call.all_peers = true
takes_data other = false

module _ {I : ISocket} where
  relocked : (s : State I) → s.data_access ≡ true → lock_data s ≡ fault relocked_mutex
  unfolding lock_data
  relocked s h = ground (arith, h)

  -- What follows a fault does not come about.
  faulty :
      {A B : Type 0} {r : Result (A × State I)} {e : Fault} (f : A → Action I B)
      → r ≡ fault e
      → elim r as (λ _. Result (B × State I)) [ fault x ↦ fault x | ok (a, t) ↦ f a t ] ≡ fault e
  faulty {B} f h =
      ap (λ q. elim q as (λ _. Result (B × State I)) [ fault x ↦ fault x | ok (a, t) ↦ f a t ]) h

  stuck :
      (c : Call) (s : State I)
      → s.data_access ≡ true
      → takes_data c ≡ true
      → perform c s ≡ fault relocked_mutex
  unfolding perform do_listen connect_to send_data disconnect_peer disconnect_all latest_peer
      all_peers receive_buffer_size set_receive_buffer_size
  stuck (Call.do_listen port ipv) s h e = faulty _ (faulty _ (relocked s h))
  stuck (Call.connect_to ip port) s h e = faulty _ (faulty _ (relocked s h))
  stuck (Call.send_data pr dat) s h e = faulty _ (faulty _ (relocked s h))
  stuck (Call.disconnect_peer pr) s h e = faulty _ (faulty _ (relocked s h))
  stuck Call.disconnect_all s h e = faulty _ (faulty _ (relocked s h))
  stuck Call.receive_buffer_size s h e = faulty _ (faulty _ (relocked s h))
  stuck (Call.set_receive_buffer_size n) s h e = faulty _ (faulty _ (relocked s h))
  stuck Call.latest_peer s h e = faulty _ (faulty _ (relocked s h))
  stuck Call.all_peers s h e = faulty _ (faulty _ (relocked s h))
  stuck Call.stop_listening s h e = cc
  stuck Call.is_listening s h e = cc
  stuck Call.listen_port s h e = cc
  stuck Call.connect_timeout s h e = cc
  stuck (Call.set_connect_timeout ms) s h e = cc
  stuck (Call.set_sleep_time ms) s h e = cc
  stuck (Call.on_started_listening f) s h e = cc
  stuck (Call.on_stopped_listening f) s h e = cc
  stuck (Call.on_accept f) s h e = cc
  stuck (Call.on_receive f) s h e = cc
  stuck (Call.on_disconnect f) s h e = cc
  stuck (Call.on_closed_connection f) s h e = cc
  stuck (Call.on_connect f) s h e = cc
  stuck (Call.on_send f) s h e = cc
  stuck (Call.on_listen_error f) s h e = cc
  stuck (Call.on_send_error f) s h e = cc
  stuck (Call.on_connect_error f) s h e = cc
  stuck (Call.on_faulty_connection_closed f) s h e = cc

  set_callback-Ends :
      (f : Callbacks → Callbacks) (s : State I)
      → s.callback_access ≡ false
      → Ends (λ _ t. t.data_access ≡ s.data_access) (set_callback f s)
  unfolding set_callback unlock_callback
  set_callback-Ends f s h = Ends-lock_callback _ s h (record { holds = refl })

  answered :
      {A : Type 0} {r : Result (A × State I)} {b : Bool} (f : A → Answer)
      → Ends (λ _ t. t.data_access ≡ b) r
      → Ends (λ _ t. t.data_access ≡ b) (elim r [ fault e ↦ fault e | ok (a, t) ↦ ok (f a, t) ])
  answered f h = Ends-bind _ h λ a t ht. record { holds = ht }

  free :
      (c : Call) (s : State I)
      → s.callback_access ≡ false
      → takes_data c ≡ false
      → Ends (λ _ t. t.data_access ≡ s.data_access) (perform c s)
  unfolding perform stop_listening request_stop notify_listen is_listening listen_port
      connect_timeout set_connect_timeout set_sleep_time on_started_listening on_stopped_listening
      on_accept on_receive on_disconnect on_closed_connection on_connect on_send on_listen_error
      on_send_error on_connect_error on_faulty_connection_closed
  free (Call.do_listen port ipv) s h e = cc
  free (Call.connect_to ip port) s h e = cc
  free (Call.send_data pr dat) s h e = cc
  free (Call.disconnect_peer pr) s h e = cc
  free Call.disconnect_all s h e = cc
  free Call.receive_buffer_size s h e = cc
  free (Call.set_receive_buffer_size n) s h e = cc
  free Call.latest_peer s h e = cc
  free Call.all_peers s h e = cc
  free Call.stop_listening s h e =
      answered _
        (Ends-when s.listen_thread_running request_stop s (λ _. record { holds = refl }) λ _. refl)
  free Call.is_listening s h e = record { holds = refl }
  free Call.listen_port s h e = record { holds = refl }
  free Call.connect_timeout s h e = record { holds = refl }
  free (Call.set_connect_timeout ms) s h e = record { holds = refl }
  free (Call.set_sleep_time ms) s h e = record { holds = refl }
  free (Call.on_started_listening f) s h e = answered _ (set_callback-Ends _ s h)
  free (Call.on_stopped_listening f) s h e = answered _ (set_callback-Ends _ s h)
  free (Call.on_accept f) s h e = answered _ (set_callback-Ends _ s h)
  free (Call.on_receive f) s h e = answered _ (set_callback-Ends _ s h)
  free (Call.on_disconnect f) s h e = answered _ (set_callback-Ends _ s h)
  free (Call.on_closed_connection f) s h e = answered _ (set_callback-Ends _ s h)
  free (Call.on_connect f) s h e = answered _ (set_callback-Ends _ s h)
  free (Call.on_send f) s h e = answered _ (set_callback-Ends _ s h)
  free (Call.on_listen_error f) s h e = answered _ (set_callback-Ends _ s h)
  free (Call.on_send_error f) s h e = answered _ (set_callback-Ends _ s h)
  free (Call.on_connect_error f) s h e = answered _ (set_callback-Ends _ s h)
  free (Call.on_faulty_connection_closed f) s h e = answered _ (set_callback-Ends _ s h)

  -- A call of a method by a thread that holds the mutex of the data and not that of the callbacks,
  -- as the listen thread does when it calls the user's functions: the methods that take the mutex
  -- of the data lock it a second time, which is a fault, and every other method ends, with the
  -- mutex as it was.
  pub perform-relocked :
      (c : Call) (s : State I)
      → s.data_access ≡ true
      → s.callback_access ≡ false
      → (takes_data c ≡ true → perform c s ≡ fault relocked_mutex)
        × (takes_data c ≡ false → Ends (λ _ t. t.data_access ≡ true) (perform c s))
  perform-relocked c s h k = (stuck c s h, λ e. Ends-mono (free c s k e) λ _ t same. same ∙ h)
