-- ===== src/TcpNodePrivate/Monad.antt =====
-- The steps that the code of a node is made of: a state, and a fault if the code goes wrong.
use simpwire.Prelude.{ℕ, Bool, true, false, ◌∷◌, if◌then◌else◌}
use simpwire.ISocket.{ISocket, Method}
use simpwire.Store.{
  Result, ok, fault, relocked_mutex, unlocked_mutex, call, get, delete_object, new_object,
}
use simpwire.TcpNodePrivate.State.{State, Arguments, woken, connect_woken}

abbrev pub Action : ISocket → Type 0 → Type 0
Action I A = State I → Result (A × State I)

module _ {I : ISocket} where
  abbrev pub pure : {A : Type 0} → A → Action I A
  pure a s = ok (a, s)

  infixl 5 ◌>>=◌ ◌>>◌
  abbrev pub ◌>>=◌ : {A B : Type 0} → Action I A → (A → Action I B) → Action I B
  ◌>>=◌ m f s = elim (m s) [ fault e ↦ fault e | ok (a, s') ↦ f a s' ]

  abbrev pub ◌>>◌ : {A B : Type 0} → Action I A → Action I B → Action I B
  m >> k = m >>= λ _. k

  abbrev pub gets : {A : Type 0} → (State I → A) → Action I A
  gets f s = ok (f s, s)

  abbrev pub modify : (State I → State I) → Action I (Unit {0})
  modify f s = ok (tt, f s)

  abbrev pub when : Bool → Action I (Unit {0}) → Action I (Unit {0})
  when b m s = if b then m s else ok (tt, s)

  -- Locking a std::mutex that the thread holds already is a fault.
  unfoldable pub lock_data : Action I (Unit {0})
  lock_data s =
      if s.data_access then fault relocked_mutex else ok (tt, record s { data_access = true })

  unfoldable pub unlock_data : Action I (Unit {0})
  unlock_data s =
      if s.data_access then ok (tt, record s { data_access = false }) else fault unlocked_mutex

  unfoldable pub lock_callback : Action I (Unit {0})
  lock_callback s =
      if s.callback_access
      then fault relocked_mutex
      else ok (tt, record s { callback_access = true })

  unfoldable pub unlock_callback : Action I (Unit {0})
  unlock_callback s =
      if s.callback_access
      then ok (tt, record s { callback_access = false })
      else fault unlocked_mutex

  -- A call of the user's function, under the mutexes held at that moment.
  unfoldable pub invoke : ℕ → Arguments → Action I (Unit {0})
  invoke f args s = ok (
    tt,
    record s {
      events =
          record {
            function = f;
            arguments = args;
            data_locked = s.data_access;
            callback_locked = s.callback_access;
          }
          ∷ s.events;
    },
  )

  -- A method of the socket behind a pointer.
  unfoldable pub call_socket : {A : Type 0} → Method I.Sock I.World A → ℕ → Action I A
  unfolding call
  call_socket f a s = elim (call f a s.store) [
    | fault e ↦ fault e
    | ok (r, m) ↦ ok (r, record s { store = m })
  ]

  unfoldable pub get_socket : {A : Type 0} → (I.Sock → A) → ℕ → Action I A
  unfolding get
  get_socket f a s = elim (get f a s.store) [ fault e ↦ fault e | ok r ↦ ok (r, s) ]

  unfoldable pub delete_socket : ℕ → Action I (Unit {0})
  unfolding delete_object
  delete_socket a s = elim (delete_object a s.store) [
    | fault e ↦ fault e
    | ok m ↦ ok (tt, record s { store = m })
  ]

  -- A pointer to a new object.
  unfoldable pub adopt_socket : I.Sock → Action I ℕ
  unfolding new_object
  adopt_socket o s = let (a, m) = new_object o s.store in ok (a, record s { store = m })

  -- `notify_one` of m_peers_or_listener_available, m_queue_not_empty and m_data_to_send_available:
  -- each has one thread that waits for it, and this reaches it only if it is asleep.
  unfoldable pub notify_listen : Action I (Unit {0})
  notify_listen s = ok (tt, record s { listen_thread = woken s.listen_thread })

  unfoldable pub notify_connect : Action I (Unit {0})
  notify_connect s = ok (tt, record s { connect_thread = connect_woken s.connect_thread })

  unfoldable pub notify_send : Action I (Unit {0})
  notify_send s = ok (tt, record s { send_thread = woken s.send_thread })
