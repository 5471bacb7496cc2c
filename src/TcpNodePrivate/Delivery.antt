-- ===== src/TcpNodePrivate/Delivery.antt =====
-- What the send thread gives to a peer's socket.
use simpwire.Prelude.{
  ℕ, Bool, true, false, ◌≡◌, ◌<◌, refl, subst, sym, none, some, List, ◌∷◌, arith, ltb,
}
use simpwire.ISocket.{ISocket, Bytes}
use simpwire.Store.{Store, update}
use simpwire.PeerPrivate.{PeerPrivate}
use simpwire.TcpNodePrivate.State.{State, Callback, Arguments, of_amount}
use simpwire.TcpNodePrivate.Monad.{call_socket, invoke, lock_callback, unlock_callback}
use simpwire.TcpNodePrivate.Map.{find}
use simpwire.TcpNodePrivate.Notify.{notify}
use simpwire.TcpNodePrivate.SendThread.{
  send_done, send_through, send_found, send_one, send_front, send_process,
}
use simpwire.TcpNodePrivate.Contracts.{Holds, Ends, Ends-bind, Ends-if}
use simpwire.TcpNodePrivate.Locks.{
  Ends-lock_data, Ends-unlock_data, Ends-lock_callback, Ends-unlock_callback,
}
use simpwire.TcpNodePrivate.Invariant.{Inv}

module _ {I : ISocket} where
  -- The store after the object `o` at `a` was given bytes to send.
  abbrev pub given : ℕ → I.Sock → Bytes → Store I → Store I
  given a o dat m =
      let (n, o', w) = I.send dat o m.world in
      record m { cell = update m.cell a (some o'); world = w }

  -- The mutex of the data is held, that of the callbacks as `b` says, and the sockets are as given.
  record Sent (b : Bool) (m : Store I) (t : State I) : Type 0 where
    data_lock : t.data_access ≡ true
    callback_lock : t.callback_access ≡ b
    store : t.store ≡ m

  notify-Sent :
      {m : Store I} (f : Callback) (args : Arguments) (s : State I)
      → Sent true m s
      → Ends (λ _ t. Sent true m t) (notify f args s)
  unfolding notify invoke lock_callback
  notify-Sent none args s h = record { holds = h }
  notify-Sent (some f) args s h =
      Ends-unlock_callback _ s h.callback_lock (record {
        holds = record { data_lock = h.data_lock; callback_lock = refl; store = h.store };
      })

  send_done-Sent :
      {m : Store I} (p : PeerPrivate) (n : ℕ) (s : State I)
      → Sent false m s
      → Ends (λ _ t. Sent false m t) (send_done p n s)
  unfolding send_done unlock_callback
  send_done-Sent {m} p n s h = Ends-lock_callback _ s h.callback_lock (
      Ends-bind _
        (notify-Sent {m = m} s.callbacks.sent (of_amount p n) (record s { callback_access = true })
          (record { data_lock = h.data_lock; callback_lock = refl; store = h.store }))
        λ _ t ht. record {
          holds =
              rw (ht.callback_lock, unlock_callback)
                (record { data_lock = ht.data_lock; callback_lock = refl; store = ht.store });
        })

  send_call-Sent :
      (a : ℕ) (o : I.Sock) (dat : Bytes) (s : State I)
      → Sent false s.store s
      → s.store.cell a ≡ some o
      → 0 < (I.send dat o s.store.world).0
      → Ends (λ n t. (0 < n) × Sent false (given a o dat s.store) t) (call_socket (I.send dat) a s)
  unfolding call_socket
  send_call-Sent a o dat s h there some_sent = record {
    holds =
        rw (Holds, call_socket, there)
          (
            some_sent,
            record { data_lock = h.data_lock; callback_lock = h.callback_lock; store = refl },
          );
  }

  send_found-Sent :
      (k a : ℕ) (o : I.Sock) (p : PeerPrivate) (dat : Bytes) (s : State I)
      → Sent false s.store s
      → p.to_be_deleted ≡ false
      → p.socket ≡ some a
      → s.store.cell a ≡ some o
      → 0 < (I.send dat o s.store.world).0
      → Ends (λ _ t. Sent false (given a o dat s.store) t) (send_found k dat (some p) s)
  unfolding send_found send_through
  send_found-Sent k a o p dat s h kept sock there some_sent =
      Ends-if p.to_be_deleted _ _ s (λ e. cc)
        λ _.
          subst (λ q. Ends (λ _ t. Sent false (given a o dat s.store) t) (send_through k p dat q s))
            (sym sock)
            (Ends-bind _ (send_call-Sent a o dat s h there some_sent) λ n t (more, ht).
              Ends-if (ltb 0 n) _ _ t (λ _. send_done-Sent p n t ht) λ e. ground arith)

  send_front-Sent :
      (k a : ℕ) (o : I.Sock) (p : PeerPrivate) (dat : Bytes) (q : List (ℕ × Bytes)) (s : State I)
      → Sent false s.store s
      → find k s.peers ≡ some p
      → p.to_be_deleted ≡ false
      → p.socket ≡ some a
      → s.store.cell a ≡ some o
      → 0 < (I.send dat o s.store.world).0
      → Ends (λ _ t. Sent false (given a o dat s.store) t) (send_front ((k, dat) ∷ q) s)
  unfolding send_front send_one
  send_front-Sent k a o p dat q s h found kept sock there some_sent =
      Ends-bind {P = λ _ t. Sent false (given a o dat s.store) t} _
        (subst (λ r. Ends (λ _ t. Sent false (given a o dat s.store) t) (send_found k dat r s))
          (sym found) (send_found-Sent k a o p dat s h kept sock there some_sent))
        λ _ t ht. record {
          holds = record {
            data_lock = ht.data_lock;
            callback_lock = ht.callback_lock;
            store = ht.store;
          };
        }

  -- In a node with the invariant whose send queue starts with bytes for a peer of the map that is
  -- not to be deleted, and where the peer's socket object reports that it sent some of them:
  -- serving the queue ends without a fault, that object was given exactly these bytes, once, and no
  -- socket was used otherwise.
  pub send_process-given :
      (k a : ℕ) (o : I.Sock) (p : PeerPrivate) (dat : Bytes) (q : List (ℕ × Bytes)) (s : State I)
      → Inv s
      → s.data_to_send ≡ (k, dat) ∷ q
      → find k s.peers ≡ some p
      → p.to_be_deleted ≡ false
      → p.socket ≡ some a
      → s.store.cell a ≡ some o
      → 0 < (I.send dat o s.store.world).0
      → Ends (λ _ t. t.store ≡ given a o dat s.store) (send_process s)
  unfolding send_process
  send_process-given k a o p dat q s h e found kept sock there some_sent =
      Ends-lock_data _ s h.data_free (
        Ends-bind {P = λ _ t. Sent false (given a o dat s.store) t} _
          (subst
            (λ xs.
              Ends (λ _ t. Sent false (given a o dat s.store) t)
                (send_front xs (record s { data_access = true })))
            (sym e)
            (send_front-Sent k a o p dat q (record s { data_access = true })
              (record { data_lock = refl; callback_lock = h.callback_free; store = refl }) found
              kept sock there some_sent))
          λ _ t ht. Ends-unlock_data _ t ht.data_lock (record { holds = ht.store }))
