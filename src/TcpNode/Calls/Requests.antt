-- ===== src/TcpNode/Calls/Requests.antt =====
-- The calls that change the node keep the invariant.
use simpwire.Prelude.{
  ℕ, Bool, true, false, not, ◌≡◌, ◌≢◌, refl, none, some, [], ◌∷◌, arith, ◌++◌, Text,
}
use simpwire.Common.{IpVersion}
use simpwire.ISocket.{ISocket, Bytes}
use simpwire.Store.{Result}
use simpwire.PeerPrivate.{schedule_delete, peer_was_disconnected}
use simpwire.Peer.{Peer, id}
use simpwire.TcpNodePrivate.State.{State, Callbacks, Callback, PeerList, ConnectPc, ThreadPc}
use simpwire.TcpNodePrivate.Monad.{notify_send}
use simpwire.TcpNodePrivate.Messages.{create_error_message}
use simpwire.TcpNodePrivate.Contracts.{Ends, Ends-bind, Ends-if, Ends-when, Frame, Frame-refl}
use simpwire.TcpNodePrivate.Ownership.{Tracks-modify_at, Tracks-schedule_all}
use simpwire.TcpNodePrivate.Sections.{
  Sect, Sect-Frame, Sect-Tracks, Ends-Sect, lock_data-Sect, unlock_data-Sect, lock_callback-Sect,
  unlock_callback-Sect,
}
use simpwire.TcpNodePrivate.Safety.Listener.{invoke-Frame}
use simpwire.TcpNodePrivate.Safety.Positions.{
  Sect-pc, Pending-append, notify_listen-Sect, notify_connect-Sect, notify_send-Sect,
}
use simpwire.TcpNodePrivate.Settings.{set_callback}
use simpwire.TcpNodePrivate.Requests.{
  peer_exists, schedule_all, launch_listen_thread, change_listener, request_stop,
  start_connect_thread, start_send_thread, schedule_peer, report_refused, is_empty,
  start_listen_thread, do_listen, stop_listening, connect_to, send_refused, send_queued, send_data,
  disconnect_peer, disconnect_all,
}

pub not_empty : (ps : PeerList) → is_empty ps ≡ false → ps ≢ []
unfolding is_empty
not_empty [] e = cc
not_empty (x ∷ ps) e = λ h. cc

module _ {I : ISocket} where
  -- A step that keeps what the invariant speaks of.
  abbrev pub Kept : {A : Type 0} → ℕ → ℕ → Result (A × State I) → Type 0
  Kept n l r = Ends (λ _ t. Sect false false n l t) r

  pub set_callback-Sect :
      {n l : ℕ} (f : Callbacks → Callbacks) (s : State I)
      → Sect false false n l s
      → Kept n l (set_callback f s)
  unfolding set_callback
  set_callback-Sect f s h = Ends-bind _ (lock_callback-Sect h) λ _ t ht.
      unlock_callback-Sect
        (Sect-Frame {t = record t { callbacks = f t.callbacks }} ht (ground arith))

  start_listen_thread-Sect :
      {n l : ℕ} (s : State I) → Sect false false n l s → Kept n l (start_listen_thread s)
  unfolding start_listen_thread launch_listen_thread
  start_listen_thread-Sect s h =
      Ends-when (not s.listen_thread_running) launch_listen_thread s
        (λ _.
          Ends-bind _
            (lock_data-Sect
              (Sect-Frame {t = record s { listen_thread_running = true }} h (ground arith)))
            λ _ t ht.
              unlock_data-Sect
                (Sect-Frame {t = record t { listen_thread = ThreadPc.at_top }} ht (ground arith)))
        λ _. h

  pub do_listen-Sect :
      {n l : ℕ} (port : ℕ) (ipv : IpVersion) (s : State I)
      → Sect false false n l s
      → Kept n l (do_listen port ipv s)
  unfolding do_listen change_listener
  do_listen-Sect {n} {l} port ipv s h = Ends-bind _ (lock_data-Sect h) λ _ t ht.
      let u : State I = record t { portnumber = port; listening_enabled = true } in
      let hu : Sect true false n l u = Sect-Frame ht (ground arith) in
      Ends-bind {P = λ _ v. Sect true false n l v} _
        (Ends-when u.listener_available change_listener u
          (λ _. record {
            holds = Sect-Frame {t = record u { changing_listener = true }} hu (ground arith);
          })
          λ _. hu)
        λ _ v hv.
          Ends-bind _
            (unlock_data-Sect (
              Sect-Frame {t = record v { ip_version = ipv; wakeup_listen_thread = true }} hv
                (ground arith)))
            λ _ w hw. Ends-bind _ (notify_listen-Sect w hw) λ _ x hx. start_listen_thread-Sect x hx

  pub stop_listening-Sect :
      {n l : ℕ} (s : State I) → Sect false false n l s → Kept n l (stop_listening s)
  unfolding stop_listening request_stop
  stop_listening-Sect s h =
      Ends-when s.listen_thread_running request_stop s
        (λ _.
          notify_listen-Sect (record s { listening_enabled = false; wakeup_listen_thread = true })
            (Sect-Frame h (ground arith)))
        λ _. h

  connecting-Sect :
      {d c : Bool} {n l : ℕ} (s : State I)
      → Sect d c n l s
      → Sect d c n l (record s { connect_thread_running = true; connect_thread = ConnectPc.at_top })
  connecting-Sect s h = Sect-Frame (Sect-pc ConnectPc.at_top s.potential_peers h tt) (ground arith)

  pub connect_to-Sect :
      {n l : ℕ} (ipaddr : Text) (port : ℕ) (s : State I)
      → Sect false false n l s
      → Kept n l (connect_to ipaddr port s)
  unfolding connect_to start_connect_thread
  connect_to-Sect {n} {l} ipaddr port s h = Ends-bind _ (lock_data-Sect h) λ _ t ht.
      Ends-bind {P = λ _ v. Sect true false n l v} _
        (Ends-when (not t.connect_thread_running) start_connect_thread t
          (λ _. record { holds = connecting-Sect t ht }) λ _. ht)
        λ _ v hv.
          Ends-bind _
            (unlock_data-Sect (
              Sect-pc v.connect_thread (v.potential_peers ++ (ipaddr, port) ∷ []) hv
                (Pending-append v.connect_thread v.potential_peers (ipaddr, port) hv.core.pending)))
            λ _ w hw. Ends-bind _ (notify_connect-Sect w hw) λ _ x hx. start_listen_thread-Sect x hx

  pub disconnect_all-Sect :
      {n l : ℕ} (s : State I) → Sect false false n l s → Kept n l (disconnect_all s)
  unfolding disconnect_all
  disconnect_all-Sect s h = Ends-bind _ (lock_data-Sect h) λ _ t ht.
      unlock_data-Sect (Sect-Tracks (schedule_all t.peers) ht (Tracks-schedule_all t.peers))

  pub disconnect_peer-Sect :
      {n l : ℕ} (pr : Peer) (s : State I) → Sect false false n l s → Kept n l (disconnect_peer pr s)
  unfolding disconnect_peer schedule_peer schedule_delete
  disconnect_peer-Sect {n} {l} pr s h = Ends-bind _ (lock_data-Sect h) λ _ t ht.
      Ends-bind {P = λ _ v. Sect true false n l v} _
        (Ends-when (peer_exists (id pr) t.peers) (schedule_peer (id pr)) t
          (λ _. record {
            holds = Sect-Tracks _ ht (
                Tracks-modify_at (id pr) (schedule_delete peer_was_disconnected) t.peers
                  λ p. record { socket = refl; connection_id = refl; valid = refl });
          })
          λ _. ht)
        λ _ v hv. unlock_data-Sect hv

  report_refused-Frame :
      (f : Callback) (pr : Peer) (s : State I) → Ends (λ _ t. Frame s t) (report_refused f pr s)
  unfolding report_refused create_error_message
  report_refused-Frame none pr s = record { holds = Frame-refl s }
  report_refused-Frame (some f) pr s = invoke-Frame f _ s

  send_refused-Sect :
      {n l : ℕ} (pr : Peer) (s : State I)
      → Sect true false n l s
      → Ends (λ _ t. Sect true false n l t) (send_refused pr s)
  unfolding send_refused
  send_refused-Sect pr s h = Ends-bind _ (lock_callback-Sect h) λ _ t ht.
      Ends-bind _ (Ends-Sect ht (report_refused-Frame t.callbacks.send_error pr t))
        λ _ u hu. unlock_callback-Sect hu

  send_queued-Sect :
      {n l : ℕ} (pr : Peer) (dat : Bytes) (s : State I)
      → Sect true false n l s
      → Ends (λ _ t. Sect true false n l t) (send_queued pr dat s)
  unfolding send_queued start_send_thread
  send_queued-Sect {n} {l} pr dat s h =
      Ends-bind {P = λ _ v. Sect true false n l v} _
        (Ends-when (not s.send_thread_running) start_send_thread s
          (λ _. record {
            holds =
                Sect-Frame
                  {t = record s { send_thread_running = true; send_thread = ThreadPc.at_top }} h
                  (ground arith);
          })
          λ _. h)
        λ _ v hv. record {
          holds =
              Sect-Frame {t = record v { data_to_send = v.data_to_send ++ (id pr, dat) ∷ [] }} hv
                (ground arith);
        }

  pub send_data-Sect :
      {n l : ℕ} (pr : Peer) (dat : Bytes) (s : State I)
      → Sect false false n l s
      → Kept n l (send_data pr dat s)
  unfolding send_data
  send_data-Sect pr dat s h = Ends-bind _ (lock_data-Sect h) λ _ t ht.
      Ends-bind _
        (Ends-if (peer_exists (id pr) t.peers) (send_queued pr dat) (send_refused pr) t
          (λ _. send_queued-Sect pr dat t ht) λ _. send_refused-Sect pr t ht)
        λ _ u hu. Ends-bind _ (unlock_data-Sect hu) λ _ v hv.
          Ends-when (peer_exists (id pr) t.peers) notify_send v (λ _. notify_send-Sect v hv) λ _. hv
