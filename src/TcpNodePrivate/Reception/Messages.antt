-- ===== src/TcpNodePrivate/Reception/Messages.antt =====
-- What the listen thread makes of a receive: the verdict, and the messages.
use simpwire.Prelude.{
  ℕ, Bool, true, ◌≡◌, ◌≢◌, subst, sym, none, some, Option, List, [], arith, Option-cases, inl, inr,
  Text, ◌==◌,
}
use simpwire.ISocket.{ISocket, Bytes, Method, ReceiveResult}
use simpwire.PeerPrivate.{
  PeerPrivate, DisconnectType, peer_disconnected_themself, peer_was_disconnected_due_to_error,
}
use simpwire.TcpNodePrivate.State.{State, Callbacks, Event, PeerList, of_bytes}
use simpwire.TcpNodePrivate.Monad.{call_socket}
use simpwire.TcpNodePrivate.Messages.{create_error_message}
use simpwire.TcpNodePrivate.Contracts.{Holds, Ends, Ends-bind, Ends-if}
use simpwire.TcpNodePrivate.Removal.{After, heard}

-- The results after which the peer is to be deleted, and the kind of its disconnection then.
abbrev pub verdict : ReceiveResult → Option DisconnectType
verdict ReceiveResult.ok = none
verdict ReceiveResult.error_nothing_received = none
verdict ReceiveResult.error_peer_disconnected = some peer_disconnected_themself
verdict ReceiveResult.error_no_connection = some peer_was_disconnected_due_to_error
verdict ReceiveResult.error_is_listener = some peer_was_disconnected_due_to_error
verdict ReceiveResult.error_system = some peer_was_disconnected_due_to_error

-- What is called, by the result and the data.
abbrev pub reported : ReceiveResult → Bytes → PeerPrivate → Callbacks → List Event
reported ReceiveResult.ok dat p c = heard c.received (of_bytes p dat)
reported other dat p c = []

-- The peer `q` is `p`, and is to be deleted if there is a verdict.
abbrev pub Judged : Option DisconnectType → PeerPrivate → PeerPrivate → Type 0
Judged none p q = q ≡ p
Judged (some dt) p q =
    (q.to_be_deleted ≡ true)
    × (q.disconn ≡ dt)
    × (q.connection_id ≡ p.connection_id)
    × (q.socket ≡ p.socket)

module _ {I : ISocket} where
  call_socket-After :
      {A : Type 0} {c : Callbacks} {es : List Event} {ps : PeerList} {b : Bool}
      (f : Method I.Sock I.World A) (a : ℕ) (s : State I)
      → After c es ps b s
      → s.store.cell a ≢ none
      → Ends (λ _ t. After c es ps b t × (t.store.cell a ≢ none)) (call_socket f a s)
  unfolding call_socket
  call_socket-After f a s h live = elim (Option-cases (s.store.cell a)) [
    | inl e ↦ absurd (live e)
    | inr (o, e) ↦ record {
      holds =
          rw (Holds, call_socket, e)
            (
              record {
                data_lock = h.data_lock;
                callback_lock = h.callback_lock;
                callbacks = h.callbacks;
                events = h.events;
                peers = h.peers;
              },
              ground arith,
            );
    }
  ]

  message-After :
      {c : Callbacks} {es : List Event} {ps : PeerList} {b : Bool} (head body : Text) (a : ℕ)
      (s : State I)
      → After c es ps b s
      → s.store.cell a ≢ none
      → Ends (λ _ t. After c es ps b t) (create_error_message head body (some a) s)
  unfolding create_error_message
  message-After head body a s h live =
      Ends-bind _ (call_socket-After I.get_last_errno a s h live) λ n t (ht, live').
        Ends-if (n == 0) _ _ t (λ _. record { holds = ht })
          λ _.
            Ends-bind _ (call_socket-After I.get_last_errno_string a t ht live')
              λ text u (hu, _). record { holds = hu }

  pub message_at-After :
      {c : Callbacks} {es : List Event} {ps : PeerList} {b : Bool} (head body : Text)
      (sock : Option ℕ) (a : ℕ) (s : State I)
      → After c es ps b s
      → sock ≡ some a
      → s.store.cell a ≢ none
      → Ends (λ _ t. After c es ps b t) (create_error_message head body sock s)
  message_at-After {c} {es} {ps} {b} head body sock a s h is live =
      subst (λ q. Ends (λ _ t. After c es ps b t) (create_error_message head body q s)) (sym is)
        (message-After head body a s h live)
