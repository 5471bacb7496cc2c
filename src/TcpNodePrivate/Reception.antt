-- ===== src/TcpNodePrivate/Reception.antt =====
-- What becomes of a peer, and what the user hears, when data is received.
use simpwire.Prelude.{
  ℕ, Bool, true, false, ◌≡◌, ◌≢◌, refl, subst, sym, none, some, Option, List, [], ◌++◌, arith,
  Option-cases, inl, inr, Text, codes, ◌==◌,
}
use simpwire.ISocket.{ISocket, Bytes, Method, ReceiveResult}
use simpwire.PeerPrivate.{
  PeerPrivate, DisconnectType, peer_disconnected_themself, peer_was_disconnected_due_to_error,
  schedule_delete, set_error_message,
}
use simpwire.TcpNodePrivate.State.{State, Callbacks, Event, PeerList, of_bytes}
use simpwire.TcpNodePrivate.Monad.{
  call_socket, get_socket, lock_callback, unlock_callback, pure, ◌>>=◌, ◌>>◌,
}
use simpwire.TcpNodePrivate.Messages.{create_error_message}
use simpwire.TcpNodePrivate.Receive.{poll_socket, handle_received, receive_one}
use simpwire.TcpNodePrivate.Contracts.{Holds, Ends, Ends-bind, Ends-if, Ends-mono}
use simpwire.TcpNodePrivate.Locks.{Ends-lock_callback}
use simpwire.TcpNodePrivate.Removal.{After, heard, notify-After, unlock-After}
pub use simpwire.TcpNodePrivate.Reception.Messages.{reported, Judged}
use simpwire.TcpNodePrivate.Reception.Messages.{verdict, message_at-After}
pub mod Messages

module _ {I : ISocket} where
  handle-After :
      {es : List Event} {ps : PeerList} {c : Callbacks} (a : ℕ) (r : ReceiveResult) (dat : Bytes)
      (p : PeerPrivate) (s : State I)
      → After c es ps true s
      → p.socket ≡ some a
      → s.store.cell a ≢ none
      → Ends
          (λ q t. Judged (verdict r) p q × After c (reported r dat p s.callbacks ++ es) ps true t)
          (handle_received r dat p s)
  unfolding handle_received create_error_message schedule_delete set_error_message
  handle-After a ReceiveResult.ok dat p s h is live =
      Ends-bind _ (notify-After s.callbacks.received (of_bytes p dat) s h)
        λ _ t ht. record { holds = (refl, ht) }
  handle-After a ReceiveResult.error_no_connection dat p s h is live = record {
    holds = ((refl, refl, refl, refl), h);
  }
  handle-After a ReceiveResult.error_is_listener dat p s h is live = record {
    holds = ((refl, refl, refl, refl), h);
  }
  handle-After a ReceiveResult.error_peer_disconnected dat p s h is live = record {
    holds = ((refl, refl, refl, refl), h);
  }
  handle-After a ReceiveResult.error_system dat p s h is live =
      Ends-bind _
        (message_at-After (codes "Receive Error") (codes "Failed to receive.") p.socket a s h is
          live)
        λ m t ht. record { holds = ((refl, refl, refl, refl), ht) }
  handle-After a ReceiveResult.error_nothing_received dat p s h is live = record {
    holds = (refl, h);
  }

  poll_socket-After :
      {c : Callbacks} {es : List Event} {ps : PeerList} {a : ℕ} {o : I.Sock} {r : ReceiveResult}
      {dat : Bytes} (s : State I)
      → After c es ps false s
      → s.store.cell a ≡ some o
      → I.is_connected o ≡ true
      → (I.receive [] o s.store.world).0 ≡ (r, dat)
      → Ends
          (λ x t. (x ≡ (r, dat)) × After c es ps false t × (t.store.cell a ≢ none))
          (poll_socket (some a) s)
  unfolding poll_socket get_socket call_socket
  poll_socket-After s h there up got = record {
    holds =
        rw (Holds, poll_socket, there, up, call_socket, there)
          (
            got,
            record {
              data_lock = h.data_lock;
              callback_lock = h.callback_lock;
              callbacks = h.callbacks;
              events = h.events;
              peers = h.peers;
            },
            ground arith,
          );
  }

  received-After :
      {c : Callbacks} {es : List Event} {ps : PeerList} {a : ℕ} {r : ReceiveResult} {dat : Bytes}
      (x : ReceiveResult × Bytes) (p : PeerPrivate) (s : State I)
      → x ≡ (r, dat)
      → After c es ps false s
      → p.socket ≡ some a
      → s.store.cell a ≢ none
      → Ends
          (λ q t. Judged (verdict r) p q × After c (reported r dat p c ++ es) ps false t)
          ((lock_callback >> (handle_received x.0 x.1 p >>= λ q. unlock_callback >> pure q)) s)
  received-After {c} {es} {ps} x p s is h sock live =
      subst
        (λ y.
          Ends (λ q t. Judged (verdict y.0) p q × After c (reported y.0 y.1 p c ++ es) ps false t)
            ((lock_callback >> (handle_received x.0 x.1 p >>= λ q. unlock_callback >> pure q)) s))
        is
        (Ends-lock_callback _ s h.callback_lock (
          Ends-bind _
            (handle-After {es = es} {ps = ps} {c = c} _ x.0 x.1 p
              (record s { callback_access = true })
              (record {
                data_lock = h.data_lock;
                callback_lock = refl;
                callbacks = h.callbacks;
                events = h.events;
                peers = h.peers;
              })
              sock live)
            λ q t (judged, ht). Ends-bind _ (unlock-After t ht) λ _ u hu. record {
              holds = (
                judged,
                subst (λ d. After c (reported x.0 x.1 p d ++ es) ps false u) h.callbacks hu,
              );
            }))

  -- While the listen thread holds the mutex of the data, a peer that is not to be deleted and whose
  -- socket object exists and is connected, and where the socket's `receive` has the result `r` and
  -- the data `dat`: the turn of that peer ends without a fault. If the result is `ok`, the user's
  -- function was called with the data, if there is one, without the mutex of the callbacks and
  -- with that of the data, and the peer is as it was. If nothing was received the peer is as it was.
  -- Every other result marks the peer for deletion, as one that disconnected itself if
  -- that is the result and as faulty if not, and no function is called. The map is as it was.
  pub receive_one-Judged :
      (p : PeerPrivate) (a : ℕ) (o : I.Sock) (r : ReceiveResult) (dat : Bytes) (s : State I)
      → s.data_access ≡ true
      → s.callback_access ≡ false
      → p.to_be_deleted ≡ false
      → p.socket ≡ some a
      → s.store.cell a ≡ some o
      → I.is_connected o ≡ true
      → (I.receive [] o s.store.world).0 ≡ (r, dat)
      → Ends
          (λ q t.
            Judged (verdict r) p q
            × (t.events ≡ reported r dat p s.callbacks ++ s.events)
            × (t.peers ≡ s.peers))
          (receive_one p s)
  unfolding receive_one
  receive_one-Judged p a o r dat s d f kept sock there up got =
      Ends-if p.to_be_deleted _ _ s (λ e. cc)
        λ _.
          Ends-mono
            (Ends-bind _
              (subst
                (λ q.
                  Ends
                    (λ x t.
                      (x ≡ (r, dat))
                      × After s.callbacks s.events s.peers false t
                      × (t.store.cell a ≢ none))
                    (poll_socket q s))
                (sym sock)
                (poll_socket-After s
                  (record {
                    data_lock = d;
                    callback_lock = f;
                    callbacks = refl;
                    events = refl;
                    peers = refl;
                  })
                  there up got))
              λ x t (is, ht, live). received-After x p t is ht sock live)
            λ q t (judged, ht). (judged, ht.events, ht.peers)
