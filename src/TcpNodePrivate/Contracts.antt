-- ===== src/TcpNodePrivate/Contracts.antt =====
-- How the steps of a node are reasoned about: a step ends without a fault, in a state with a
-- property. Most steps leave alone what the invariant speaks of, but for the contents of the store.
use simpwire.Prelude.{
  Bool, true, false, if◌then◌else◌, ℕ, ◌≤◌, ◌≡◌, refl, ◌≢◌, some, none, arith, Option-cases, inl,
  inr,
}
use simpwire.ISocket.{ISocket, Method}
use simpwire.Store.{Store, update, Result, ok, fault}
use simpwire.TcpNodePrivate.State.{State}
use simpwire.TcpNodePrivate.Monad.{when, ◌>>=◌, Action, call_socket, get_socket}

module _ {I : ISocket} where
  abbrev pub Holds : {A : Type 0} → (A → State I → Type 0) → Result (A × State I) → Type 0
  Holds P (fault e) = ⊥
  Holds P (ok (a, s)) = P a s

  -- No fault, and the property holds of the result and the new state.
  pub record Ends {A : Type 0} (P : A → State I → Type 0) (r : Result (A × State I)) : Type 0 where
    pub holds : Holds P r

  Holds-elim :
      {A B : Type 0} (P : A → State I → Type 0) (Q : B → State I → Type 0)
      (r : Result (A × State I)) (f : A → Action I B)
      → Holds P r
      → ((a : A) (t : State I) → P a t → Ends Q (f a t))
      → Holds Q (elim r [ fault e ↦ fault e | ok (a, t) ↦ f a t ])
  Holds-elim P Q (fault e) f h k = absurd h
  Holds-elim P Q (ok (a, t)) f h k = (k a t h).holds

  -- One step after the other.
  pub Ends-bind :
      {A B : Type 0} {P : A → State I → Type 0} {Q : B → State I → Type 0}
      {r : Result (A × State I)} (f : A → Action I B)
      → Ends P r
      → ((a : A) (t : State I) → P a t → Ends Q (f a t))
      → Ends Q (elim r [ fault e ↦ fault e | ok (a, t) ↦ f a t ])
  Ends-bind {P} {Q} {r} f h k = record { holds = Holds-elim P Q r f h.holds k }

  Holds-mono :
      {A : Type 0} (P Q : A → State I → Type 0) (r : Result (A × State I))
      → Holds P r
      → ((a : A) (t : State I) → P a t → Q a t)
      → Holds Q r
  Holds-mono P Q (fault e) h k = absurd h
  Holds-mono P Q (ok (a, t)) h k = k a t h

  pub Ends-mono :
      {A : Type 0} {P Q : A → State I → Type 0} {r : Result (A × State I)}
      → Ends P r
      → ((a : A) (t : State I) → P a t → Q a t)
      → Ends Q r
  Ends-mono {P} {Q} {r} h k = record { holds = Holds-mono P Q r h.holds k }

  Holds-both :
      {A : Type 0} (P Q : A → State I → Type 0) (r : Result (A × State I))
      → Holds P r
      → Holds Q r
      → Holds (λ a t. P a t × Q a t) r
  Holds-both P Q (fault e) h k = h
  Holds-both P Q (ok (a, t)) h k = (h, k)

  pub Ends-both :
      {A : Type 0} {P Q : A → State I → Type 0} {r : Result (A × State I)}
      → Ends P r
      → Ends Q r
      → Ends (λ a t. P a t × Q a t) r
  Ends-both {P} {Q} {r} h k = record { holds = Holds-both P Q r h.holds k.holds }

  pub Ends-if :
      {A : Type 0} {P : A → State I → Type 0} (b : Bool) (m k : Action I A) (s : State I)
      → (b ≡ true → Ends P (m s))
      → (b ≡ false → Ends P (k s))
      → Ends P ((if b then m else k) s)
  Ends-if true m k s yes_case no_case = yes_case refl
  Ends-if false m k s yes_case no_case = no_case refl

  -- The same where a loop goes on in one case only.
  pub Ends-again :
      {A : Type 0} {P : A → State I → Type 0} (b : Bool) (m k : Action I A) (s : State I)
      → (b ≡ true → Ends P (m s))
      → (b ≡ false → Ends P (k s))
      → Ends P ((elim b as (λ _. Action I A) [ true ↦ m | false ↦ k ]) s)
  Ends-again true m k s yes_case no_case = yes_case refl
  Ends-again false m k s yes_case no_case = no_case refl

  pub Ends-when :
      {P : Unit {0} → State I → Type 0} (b : Bool) (m : Action I (Unit {0})) (s : State I)
      → (b ≡ true → Ends P (m s))
      → (b ≡ false → P tt s)
      → Ends P (when b m s)
  Ends-when true m s yes_case no_case = yes_case refl
  Ends-when false m s yes_case no_case = record { holds = no_case refl }

  -- Every object of the one store is in the other.
  pub record Extends (m n : Store I) : Type 0 where
    pub keeps : (a : ℕ) → m.cell a ≢ none → n.cell a ≢ none
    pub grows : m.next ≤ n.next

  pub record Frame (s t : State I) : Type 0 where
    pub data_access : t.data_access ≡ s.data_access
    pub callback_access : t.callback_access ≡ s.callback_access
    pub listener : t.listener ≡ s.listener
    pub peers : t.peers ≡ s.peers
    pub counter : t.connection_counter ≡ s.connection_counter
    pub queue : t.potential_peers ≡ s.potential_peers
    pub thread : t.connect_thread ≡ s.connect_thread
    pub timeout : t.connect_timeout ≡ s.connect_timeout
    pub store : Extends s.store t.store

  pub Frame-refl : (s : State I) → Frame s s
  Frame-refl s = record {
    data_access = refl;
    callback_access = refl;
    listener = refl;
    peers = refl;
    counter = refl;
    queue = refl;
    thread = refl;
    timeout = refl;
    store = record { keeps = λ a h. h; grows = omega arith };
  }

  pub Frame-trans : {s t u : State I} → Frame s t → Frame t u → Frame s u
  Frame-trans f g = record {
    data_access = cc;
    callback_access = cc;
    listener = cc;
    peers = cc;
    counter = cc;
    queue = cc;
    thread = cc;
    timeout = cc;
    store = record { keeps = λ a h. g.store.keeps a (f.store.keeps a h); grows = omega arith };
  }

  update-keeps :
      (m : Store I) (a : ℕ) (o : I.Sock) (b : ℕ)
      → m.cell b ≢ none
      → update m.cell a (some o) b ≢ none
  update-keeps m a o b h = ground arith

  pub call_socket-Frame :
      {A : Type 0} (f : Method I.Sock I.World A) (a : ℕ) (s : State I)
      → s.store.cell a ≢ none
      → Ends (λ _ t. Frame s t) (call_socket f a s)
  unfolding call_socket
  call_socket-Frame f a s h = elim (Option-cases (s.store.cell a)) [
    | inl e ↦ absurd (h e)
    | inr (o, e) ↦ record {
      holds =
          rw (Holds, call_socket, e)
            (record {
              data_access = refl;
              callback_access = refl;
              listener = refl;
              peers = refl;
              counter = refl;
              queue = refl;
              thread = refl;
              timeout = refl;
              store = record { keeps = update-keeps s.store a _; grows = omega arith };
            });
    }
  ]

  pub get_socket_lem :
      {A : Type 0} (f : I.Sock → A) (a : ℕ) (s : State I)
      → s.store.cell a ≢ none
      → Ends (λ _ t. t ≡ s) (get_socket f a s)
  unfolding get_socket
  get_socket_lem f a s h = ground arith

  -- A getter leaves the state as it is.
  pub Ends-get :
      {A B : Type 0} {Q : B → State I → Type 0} (f : I.Sock → A) (a : ℕ) (k : A → Action I B)
      (s : State I)
      → s.store.cell a ≢ none
      → ((r : A) → Ends Q (k r s))
      → Ends Q ((get_socket f a >>= k) s)
  unfolding get_socket
  Ends-get {Q} f a k s live h = elim (Option-cases (s.store.cell a)) [
    | inl e ↦ absurd (live e)
    | inr (o, e) ↦ record { holds = rw (Holds, get_socket, e) (h (f o)).holds }
  ]
