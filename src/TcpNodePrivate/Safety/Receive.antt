-- ===== src/TcpNodePrivate/Safety/Receive.antt =====
-- Data is received from every peer.
use simpwire.Prelude.{ℕ, true, false, ◌≡◌, refl, sym, ◌∙◌, none, some, Option, [], ◌∷◌, Text, arith}
use simpwire.ISocket.{ISocket, Bytes, ReceiveResult}
use simpwire.PeerPrivate.{PeerPrivate, schedule_delete, set_error_message}
use simpwire.TcpNodePrivate.State.{State, PeerList, of_bytes}
use simpwire.TcpNodePrivate.Monad.{Action, pure, ◌>>=◌, ◌>>◌, lock_callback, unlock_callback}
use simpwire.TcpNodePrivate.Messages.{create_error_message}
use simpwire.TcpNodePrivate.Receive.{poll_socket, handle_received, receive_one, receive_all}
use simpwire.TcpNodePrivate.Contracts.{
  Ends, Ends-bind, Ends-if, Ends-get, Ends-mono, Frame, Frame-refl, Frame-trans, call_socket-Frame,
}
use simpwire.TcpNodePrivate.Locks.{Ends-lock_callback, Ends-unlock_callback}
use simpwire.TcpNodePrivate.Frames.{notify-Frame, create_error_message-Frame}
use simpwire.TcpNodePrivate.Invariant.{HasSocket, HasSocket-Extends, Owned, Owned-Extends}
use simpwire.TcpNodePrivate.Ownership.{SameOwner, Tracks}

module _ {I : ISocket} where
  unlocked-Frame :
      {s t : State I}
      → s.callback_access ≡ false
      → Frame (record s { callback_access = true }) t
      → Frame s (record t { callback_access = false })
  unlocked-Frame e f = record {
    data_access = f.data_access;
    callback_access = sym e;
    listener = f.listener;
    peers = f.peers;
    counter = f.counter;
    queue = f.queue;
    thread = f.thread;
    timeout = f.timeout;
    store = record { keeps = f.store.keeps; grows = f.store.grows };
  }

  -- A step under the mutex of the callbacks.
  pub under_callback-Frame :
      {A : Type 0} {R : A → Type 0} (m : Action I A) (s : State I)
      → s.callback_access ≡ false
      → Ends
          (λ a u. Frame (record s { callback_access = true }) u × R a)
          (m (record s { callback_access = true }))
      → Ends (λ a u. Frame s u × R a) ((lock_callback >> (m >>= λ a. unlock_callback >> pure a)) s)
  under_callback-Frame m s e h = Ends-lock_callback _ s e (
      Ends-bind _ h λ a u (f, r).
        Ends-unlock_callback _ u f.callback_access (record { holds = (unlocked-Frame e f, r) }))

  poll_socket-Frame :
      (l : ℕ) (sock : Option ℕ) (s : State I)
      → HasSocket s.store l sock
      → Ends (λ _ t. Frame s t) (poll_socket sock s)
  unfolding poll_socket
  poll_socket-Frame l none s h = absurd h
  poll_socket-Frame l (some a) s h = Ends-get I.is_connected a _ s h.0 λ connected.
      Ends-if connected _ _ s (λ _. call_socket-Frame (I.receive []) a s h.0)
        λ _. record { holds = Frame-refl s }

  -- A message that the peer keeps is about its socket or about none.
  message-Frame :
      (h b : Text) (l : ℕ) (sock : Option ℕ) (s : State I)
      → HasSocket s.store l sock
      → Ends (λ _ t. Frame s t) (create_error_message h b sock s)
  unfolding create_error_message
  message-Frame h b l none s live = record { holds = Frame-refl s }
  message-Frame h b l (some a) s live = create_error_message-Frame h b a s live.0

  handle_received-Frame :
      (l : ℕ) (r : ReceiveResult) (bytes : Bytes) (p : PeerPrivate) (s : State I)
      → s.callback_access ≡ true
      → HasSocket s.store l p.socket
      → Ends (λ q t. Frame s t × SameOwner p q) (handle_received r bytes p s)
  unfolding handle_received schedule_delete set_error_message create_error_message
  handle_received-Frame l ReceiveResult.ok bytes p s e h =
      Ends-bind _ (notify-Frame _ (of_bytes p bytes) s e) λ _ t f. record {
        holds = (f, record { socket = refl; connection_id = refl; valid = refl });
      }
  handle_received-Frame l ReceiveResult.error_no_connection bytes p s e h = record {
    holds = (Frame-refl s, record { socket = refl; connection_id = refl; valid = refl });
  }
  handle_received-Frame l ReceiveResult.error_is_listener bytes p s e h = record {
    holds = (Frame-refl s, record { socket = refl; connection_id = refl; valid = refl });
  }
  handle_received-Frame l ReceiveResult.error_peer_disconnected bytes p s e h = record {
    holds = (Frame-refl s, record { socket = refl; connection_id = refl; valid = refl });
  }
  handle_received-Frame l ReceiveResult.error_system bytes p s e h =
      Ends-bind _ (message-Frame _ _ l p.socket s h) λ _ t f. record {
        holds = (f, record { socket = refl; connection_id = refl; valid = refl });
      }
  handle_received-Frame l ReceiveResult.error_nothing_received bytes p s e h = record {
    holds = (Frame-refl s, record { socket = refl; connection_id = refl; valid = refl });
  }

  receive_one-Frame :
      (l : ℕ) (p : PeerPrivate) (s : State I)
      → s.callback_access ≡ false
      → HasSocket s.store l p.socket
      → Ends (λ q t. Frame s t × SameOwner p q) (receive_one p s)
  unfolding receive_one
  receive_one-Frame l p s e h =
      Ends-if p.to_be_deleted _ _ s
        (λ _. record {
          holds = (Frame-refl s, record { socket = refl; connection_id = refl; valid = refl });
        })
        λ _. Ends-bind _ (poll_socket-Frame l p.socket s h) λ (r, bytes) t f.
          Ends-mono
            (under_callback-Frame (handle_received r bytes p) t (f.callback_access ∙ e)
              (handle_received-Frame l r bytes p _ refl (HasSocket-Extends l p.socket f.store h)))
            λ q u (g, same). (Frame-trans f g, same)

  -- The peers that come out are the peers that went in, in the same order.
  pub receive_all-Frame :
      (l c : ℕ) (ps : PeerList) (s : State I)
      → s.callback_access ≡ false
      → Owned s.store l c ps
      → Ends (λ qs t. Frame s t × Tracks ps qs) (receive_all ps s)
  unfolding receive_all
  receive_all-Frame l c [] s e o = record { holds = (Frame-refl s, tt) }
  receive_all-Frame l c ((k, p) ∷ ps) s e o =
      Ends-bind _ (receive_one-Frame l p s e o.0.own) λ q t (f, same).
        Ends-bind _
          (receive_all-Frame l c ps t (f.callback_access ∙ e)
            (Owned-Extends l c c ps f.store (omega arith) o.2))
          λ qs u (g, tracks). record { holds = (Frame-trans f g, (refl, same, tracks)) }
