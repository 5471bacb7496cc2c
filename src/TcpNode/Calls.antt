-- ===== src/TcpNode/Calls.antt =====
-- Every call of a method ends without a fault and keeps the invariant.
use simpwire.Prelude.{
  ℕ, Bool, true, false, not, ◌≡◌, ◌≢◌, refl, sym, none, some, [], ◌∷◌, arith, if◌then◌else◌, ◌++◌,
  Text, Option-cases, inl, inr,
}
use simpwire.Common.{IpVersion}
use simpwire.ISocket.{ISocket, Bytes}
use simpwire.Store.{Result}
use simpwire.PeerPrivate.{new_peer_private, schedule_delete, peer_was_disconnected}
use simpwire.Peer.{Peer, id}
use simpwire.TcpNodePrivate.State.{State, Callbacks, Callback, PeerList, ConnectPc, ThreadPc}
use simpwire.TcpNodePrivate.Monad.{pure}
use simpwire.TcpNodePrivate.Map.{find}
use simpwire.TcpNodePrivate.Messages.{create_error_message}
use simpwire.TcpNodePrivate.Contracts.{
  Ends, Ends-bind, Ends-if, Ends-when, Ends-mono, Frame, Frame-refl, Holds,
}
use simpwire.TcpNodePrivate.Ownership.{Tracks-modify_at, Tracks-schedule_all}
use simpwire.TcpNodePrivate.Sections.{
  Sect, Sect-at, Sect-Frame, Sect-Tracks, Ends-Sect, lock_data-Sect, unlock_data-Sect,
  lock_callback-Sect, unlock_callback-Sect, call_listener-Sect, get_listener-Sect,
}
use simpwire.TcpNodePrivate.Safety.Listener.{invoke-Frame}
use simpwire.TcpNodePrivate.Safety.Positions.{Sect-pc, Pending-append}
use simpwire.TcpNodePrivate.Latest.{max_id-present, Owned-positive}
use simpwire.TcpNodePrivate.Settings.{
  set_callback, all_peers, receive_buffer_size, set_receive_buffer_size,
}
use simpwire.TcpNodePrivate.Requests.{
  peer_exists, schedule_all, max_id, launch_listen_thread, change_listener, request_stop,
  start_connect_thread, start_send_thread, schedule_peer, report_refused, is_empty,
  start_listen_thread, do_listen, stop_listening, connect_to, send_refused, send_queued, send_data,
  disconnect_peer, disconnect_all, at, latest_peer,
}
pub use simpwire.TcpNode.Calls.Requests.{
  Kept, set_callback-Sect, do_listen-Sect, stop_listening-Sect, connect_to-Sect,
  disconnect_all-Sect, disconnect_peer-Sect, send_data-Sect,
}
use simpwire.TcpNode.Calls.Requests.{not_empty}
pub mod Requests

module _ {I : ISocket} where
  here : {d c : Bool} {n l : ℕ} {s : State I} → Sect d c n l s → Sect d c n s.listener s
  here h = Sect-at (sym h.listener) h

  at_listener :
      {A : Type 0} {d c : Bool} {n l : ℕ} {s : State I} {r : Result (A × State I)}
      → Sect d c n l s
      → Ends (λ _ t. Sect d c n s.listener t) r
      → Ends (λ _ t. Sect d c n l t) r
  at_listener h e = Ends-mono e λ _ t ht. Sect-at h.listener ht

  pub all_peers-Sect : {n l : ℕ} (s : State I) → Sect false false n l s → Kept n l (all_peers s)
  unfolding all_peers
  all_peers-Sect s h =
      Ends-bind _ (lock_data-Sect h)
        λ _ t ht. Ends-bind _ (unlock_data-Sect ht) λ _ u hu. record { holds = hu }

  pub receive_buffer_size-Sect :
      {n l : ℕ} (s : State I) → Sect false false n l s → Kept n l (receive_buffer_size s)
  unfolding receive_buffer_size
  receive_buffer_size-Sect {n} {l} s h = Ends-bind _ (lock_data-Sect h) λ _ t ht.
      Ends-bind {P = λ _ u. Sect true false n l u} _
        (at_listener ht (get_listener-Sect I.receive_buffer_size (here ht)))
        λ k u hu. Ends-bind _ (unlock_data-Sect hu) λ _ v hv. record { holds = hv }

  pub set_receive_buffer_size-Sect :
      {n l : ℕ} (k : ℕ) (s : State I)
      → Sect false false n l s
      → Kept n l (set_receive_buffer_size k s)
  unfolding set_receive_buffer_size
  set_receive_buffer_size-Sect {n} {l} k s h = Ends-bind _ (lock_data-Sect h) λ _ t ht.
      Ends-bind {P = λ _ u. Sect true false n l u} _
        (at_listener ht (call_listener-Sect (I.set_receive_buffer_size k) (here ht)))
        λ _ u hu. unlock_data-Sect hu

  at-Sect :
      {d c : Bool} {n l : ℕ} (k : ℕ) (ps : PeerList) (s : State I)
      → Sect d c n l s
      → find k ps ≢ none
      → Ends (λ _ t. Sect d c n l t) (at k ps s)
  unfolding at
  at-Sect k ps s h found = elim (Option-cases (find k ps)) [
    | inl e ↦ absurd (found e)
    | inr (p, e) ↦ record { holds = rw (Holds, at, e) h }
  ]

  latest-Sect :
      {d c : Bool} {n l : ℕ} (s : State I)
      → Sect d c n l s
      → Ends
          (λ _ t. Sect d c n l t)
          ((if is_empty s.peers
              then pure (some new_peer_private)
              else at (max_id 0 s.peers) s.peers)
            s)
  unfolding is_empty
  latest-Sect s h =
      Ends-if (is_empty s.peers) _ (at (max_id 0 s.peers) s.peers) s (λ _. record { holds = h })
        λ some_there. at-Sect (max_id 0 s.peers) s.peers s h (
          max_id-present s.peers (not_empty s.peers some_there)
            (Owned-positive s.store s.listener s.connection_counter s.peers h.core.owned))

  pub latest_peer-Sect : {n l : ℕ} (s : State I) → Sect false false n l s → Kept n l (latest_peer s)
  unfolding latest_peer
  latest_peer-Sect {n} {l} s h = Ends-bind _ (lock_data-Sect h) λ _ t ht.
      Ends-bind {P = λ _ u. Sect true false n l u} _ (latest-Sect t ht)
        λ r u hu. Ends-bind _ (unlock_data-Sect hu) λ _ v hv. record { holds = hv }
