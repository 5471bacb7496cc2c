-- ===== src/TcpNodePrivate/Steady.antt =====
-- src/TcpNodePrivate.cpp: what a turn of a thread does leaves alone which threads run and where they
-- stand. One rule for each way to build an action.
use simpwire.Prelude.{
  ℕ, Bool, true, false, ◌≡◌, refl, ◌∙◌, ◌⊎◌, inl, inr, some, none, Option, if◌then◌else◌, ap, arith,
}
use simpwire.ISocket.{ISocket, Method}
use simpwire.Store.{Result, ok, fault, call, get, delete_object, new_object}
use simpwire.TcpNodePrivate.State.{State, Callback, Arguments, ThreadPc, ConnectPc, woken}
use simpwire.TcpNodePrivate.Monad.{
  Action, pure, ◌>>=◌, ◌>>◌, gets, modify, when, lock_data, unlock_data, lock_callback,
  unlock_callback, invoke, call_socket, get_socket, delete_socket, adopt_socket, notify_listen,
}
use simpwire.TcpNodePrivate.Contracts.{Holds, Ends}
pub mod Notices
pub mod ListenTurn
pub mod Attempt
pub mod SendTurn

-- Whether the destructor has been called, which threads are to run on, and where they stand.
pub record Flow : Type 0 where
  pub destructor_called : Bool
  pub connect_running : Bool
  pub send_running : Bool
  pub listen_running : Bool
  pub connect_thread : ConnectPc
  pub send_thread : ThreadPc
  pub listen_thread : ThreadPc

-- No thread has moved on, but that the listen thread may have been woken.
pub record Still (x y : Flow) : Type 0 where
  pub destructor_called : y.destructor_called ≡ x.destructor_called
  pub connect_running : y.connect_running ≡ x.connect_running
  pub send_running : y.send_running ≡ x.send_running
  pub listen_running : y.listen_running ≡ x.listen_running
  pub connect_thread : y.connect_thread ≡ x.connect_thread
  pub send_thread : y.send_thread ≡ x.send_thread
  pub listen_thread :
      (y.listen_thread ≡ x.listen_thread) ⊎ (y.listen_thread ≡ woken x.listen_thread)

pub Still-refl : (x : Flow) → Still x x
Still-refl x = record {
  destructor_called = refl;
  connect_running = refl;
  send_running = refl;
  listen_running = refl;
  connect_thread = refl;
  send_thread = refl;
  listen_thread = inl refl;
}

woken_twice :
    (a b c : ThreadPc) → (b ≡ a) ⊎ (b ≡ woken a) → (c ≡ b) ⊎ (c ≡ woken b) → (c ≡ a) ⊎ (c ≡ woken a)
woken_twice a b c h k = ground arith

pub Still-trans : {x y z : Flow} → Still x y → Still y z → Still x z
Still-trans f g = record {
  destructor_called = g.destructor_called ∙ f.destructor_called;
  connect_running = g.connect_running ∙ f.connect_running;
  send_running = g.send_running ∙ f.send_running;
  listen_running = g.listen_running ∙ f.listen_running;
  connect_thread = g.connect_thread ∙ f.connect_thread;
  send_thread = g.send_thread ∙ f.send_thread;
  listen_thread = woken_twice _ _ _ f.listen_thread g.listen_thread;
}

module _ {I : ISocket} where
  -- If there is no fault, the property.
  abbrev pub Post : {A : Type 0} → (A → State I → Type 0) → Result (A × State I) → Type 0
  Post P (fault e) = Unit {0}
  Post P (ok (a, t)) = P a t

  Holds-Post :
      {A : Type 0} (P Q : A → State I → Type 0) (r : Result (A × State I))
      → Holds P r
      → Post Q r
      → Holds (λ a t. P a t × Q a t) r
  Holds-Post P Q (fault e) h k = absurd h
  Holds-Post P Q (ok (a, t)) h k = (h, k)

  pub Ends-Post :
      {A : Type 0} {P Q : A → State I → Type 0} {r : Result (A × State I)}
      → Ends P r
      → Post Q r
      → Ends (λ a t. P a t × Q a t) r
  Ends-Post {P} {Q} {r} h k = record { holds = Holds-Post P Q r h.holds k }

  pub Post-bind :
      {A B : Type 0} (P : A → State I → Type 0) (Q : B → State I → Type 0)
      (r : Result (A × State I)) (f : A → Action I B)
      → Post P r
      → ((a : A) (t : State I) → P a t → Post Q (f a t))
      → Post Q (elim r [ fault e ↦ fault e | ok (a, t) ↦ f a t ])
  Post-bind P Q (fault e) f h k = tt
  Post-bind P Q (ok (a, t)) f h k = k a t h

  abbrev pub flow : State I → Flow
  flow s = record {
    destructor_called = s.destructor_called;
    connect_running = s.connect_thread_running;
    send_running = s.send_thread_running;
    listen_running = s.listen_thread_running;
    connect_thread = s.connect_thread;
    send_thread = s.send_thread;
    listen_thread = s.listen_thread;
  }

  pub Post-mono :
      {A : Type 0} (P Q : A → State I → Type 0) (r : Result (A × State I))
      → Post P r
      → ((a : A) (t : State I) → P a t → Q a t)
      → Post Q r
  Post-mono P Q (fault e) h k = tt
  Post-mono P Q (ok (a, t)) h k = k a t h

  pub Post-if :
      {A : Type 0} (P : A → State I → Type 0) (b : Bool) (m k : Action I A) (s : State I)
      → (b ≡ true → Post P (m s))
      → (b ≡ false → Post P (k s))
      → Post P ((if b then m else k) s)
  Post-if P true m k s hm hk = hm refl
  Post-if P false m k s hm hk = hk refl

  pub Post-when :
      (P : Unit {0} → State I → Type 0) (b : Bool) (m : Action I (Unit {0})) (s : State I)
      → (b ≡ true → Post P (m s))
      → (b ≡ false → P tt s)
      → Post P (when b m s)
  Post-when P true m s hm hk = hm refl
  Post-when P false m s hm hk = hk refl

  pub record Steady {A : Type 0} (m : Action I A) : Type 0 where
    pub at : (s : State I) → Post (λ _ t. Still (flow s) (flow t)) (m s)

  pub Steady-bind :
      {A B : Type 0} (m : Action I A) (f : A → Action I B)
      → Steady m
      → ((a : A) → Steady (f a))
      → Steady (m >>= f)
  Steady-bind {A} {B} m f h k = record { at = λ s. bound s (m s) (h.at s) }
    where
      bound :
          (s : State I) (r : Result (A × State I))
          → Post (λ _ t. Still (flow s) (flow t)) r
          → Post (λ _ t. Still (flow s) (flow t)) (elim r [ fault e ↦ fault e | ok (a, t) ↦ f a t ])
      bound s r p =
          Post-bind _ (λ _ t. Still (flow s) (flow t)) r f p
            λ a t e. Post-mono _ _ (f a t) ((k a).at t) λ b u e'. Still-trans e e'

  pub Steady-pure : {A : Type 0} (a : A) → Steady (pure a)
  Steady-pure a = record { at = λ s. Still-refl (flow s) }

  pub Steady-gets : {A : Type 0} (f : State I → A) → Steady (gets f)
  Steady-gets f = record { at = λ s. Still-refl (flow s) }

  pub Steady-modify :
      (f : State I → State I) → ((s : State I) → Still (flow s) (flow (f s))) → Steady (modify f)
  Steady-modify f h = record { at = h }

  pub Steady-if :
      {A : Type 0} (b : Bool) (m k : Action I A) → Steady m → Steady k → Steady (if b then m else k)
  Steady-if true m k hm hk = hm
  Steady-if false m k hm hk = hk

  pub Steady-when : (b : Bool) (m : Action I (Unit {0})) → Steady m → Steady (when b m)
  Steady-when true m h = record { at = h.at }
  Steady-when false m h = record { at = λ s. Still-refl (flow s) }

  pub Steady-lock_data : Steady lock_data
  unfolding lock_data
  Steady-lock_data = record { at = λ s. ground arith }

  pub Steady-unlock_data : Steady unlock_data
  unfolding unlock_data
  Steady-unlock_data = record { at = λ s. ground arith }

  pub Steady-lock_callback : Steady lock_callback
  unfolding lock_callback
  Steady-lock_callback = record { at = λ s. ground arith }

  pub Steady-unlock_callback : Steady unlock_callback
  unfolding unlock_callback
  Steady-unlock_callback = record { at = λ s. ground arith }

  pub Steady-invoke : (f : ℕ) (args : Arguments) → Steady (invoke f args)
  unfolding invoke
  Steady-invoke f args = record { at = λ s. Still-refl (flow s) }

  pub Steady-call_socket :
      {A : Type 0} (f : Method I.Sock I.World A) (a : ℕ) → Steady (call_socket f a)
  unfolding call_socket
  Steady-call_socket f a = record { at = λ s. ground arith }

  pub Steady-get_socket : {A : Type 0} (f : I.Sock → A) (a : ℕ) → Steady (get_socket f a)
  unfolding get_socket
  Steady-get_socket f a = record { at = λ s. ground arith }

  pub Steady-delete_socket : (a : ℕ) → Steady (delete_socket a)
  unfolding delete_socket
  Steady-delete_socket a = record { at = λ s. ground arith }

  pub Steady-adopt_socket : (o : I.Sock) → Steady (adopt_socket o)
  unfolding adopt_socket
  Steady-adopt_socket o = record { at = λ s. Still-refl (flow s) }

  -- The notifications of the other two threads stand in no turn.
  pub Steady-notify_listen : Steady notify_listen
  unfolding notify_listen
  Steady-notify_listen = record {
    at = λ s. record {
      destructor_called = refl;
      connect_running = refl;
      send_running = refl;
      listen_running = refl;
      connect_thread = refl;
      send_thread = refl;
      listen_thread = inr refl;
    };
  }

pub ruleset steady = (
  Still-refl, Steady-notify_listen, Steady-bind, Steady-pure, Steady-gets, Steady-modify, Steady-if,
  Steady-when, Steady-lock_data, Steady-unlock_data, Steady-lock_callback, Steady-unlock_callback,
  Steady-invoke, Steady-call_socket, Steady-get_socket, Steady-delete_socket, Steady-adopt_socket,
)
