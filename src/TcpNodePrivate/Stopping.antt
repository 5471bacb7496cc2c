-- ===== src/TcpNodePrivate/Stopping.antt =====
-- src/TcpNodePrivate.cpp: how far each thread is from its end once it is to stop.
use simpwire.Prelude.{
  ℕ, zero, suc, ◌+◌, ◌-◌, ◌≤◌, Bool, true, false, not, ◌||◌, ◌⊎◌, inl, if◌then◌else◌, ◌≡◌, refl,
  ◌∙◌, arith, length, ◌==◌, ℤ,
}
use simpwire.ISocket.{ISocket}
use simpwire.TcpNodePrivate.State.{State, ConnectPc, ThreadPc, woken}
use simpwire.TcpNodePrivate.Monad.{Action, lock_data, unlock_data, ◌>>◌, when}
use simpwire.TcpNodePrivate.ConnectThread.{
  connect_turn, connect_turn_at, connect_attempt, pop_front,
}
use simpwire.TcpNodePrivate.SendThread.{send_turn, send_turn_at, send_process, wrap8}
use simpwire.TcpNodePrivate.ListenThread.{listen_turn, listen_turn_at, listen_serve, listen_awake}
use simpwire.TcpNodePrivate.Listener.{listen_enable}
use simpwire.TcpNodePrivate.Steady.{
  Still, Still-trans, Flow, flow, Post, Post-bind, Post-mono, Post-if, Steady, steady, Steady-when,
  Steady-lock_data, Steady-unlock_data,
}
use simpwire.TcpNodePrivate.Steady.Attempt.{connect_attempt-Steady, pop_front-Steady}
use simpwire.TcpNodePrivate.Steady.SendTurn.{send_front-Steady}
use simpwire.TcpNodePrivate.Steady.ListenTurn.{listen_enable-Steady, listen_serve-Steady}

-- How many turns a thread takes at most before it is finished, once it is told to stop. One that is
-- asleep takes none, and is not finished.
abbrev pub connect_left : ConnectPc → ℕ
connect_left ConnectPc.not_started = 0
connect_left ConnectPc.at_top = 1
connect_left ConnectPc.waiting = 2
connect_left ConnectPc.asleep = 0
connect_left ConnectPc.finished = 0
connect_left (ConnectPc.trying n) = n + 2

abbrev pub send_left : ThreadPc → ℕ
send_left ThreadPc.not_started = 0
send_left ThreadPc.at_top = 1
send_left ThreadPc.waiting = 2
send_left ThreadPc.asleep = 0
send_left ThreadPc.finished = 0

abbrev pub listen_left : ThreadPc → ℕ
listen_left ThreadPc.not_started = 0
listen_left ThreadPc.at_top = 1
listen_left ThreadPc.waiting = 1
listen_left ThreadPc.asleep = 0
listen_left ThreadPc.finished = 0

abbrev pub rests : ThreadPc → Bool
rests ThreadPc.not_started = false
rests ThreadPc.at_top = false
rests ThreadPc.waiting = false
rests ThreadPc.asleep = true
rests ThreadPc.finished = false

abbrev pub connect_rests : ConnectPc → Bool
connect_rests ConnectPc.not_started = false
connect_rests ConnectPc.at_top = false
connect_rests ConnectPc.waiting = false
connect_rests ConnectPc.asleep = true
connect_rests ConnectPc.finished = false
connect_rests (ConnectPc.trying n) = false

-- What `a` turns of the connect thread, `b` of the send thread and `c` of the listen thread do: once
-- it is to stop, a thread that is awake stays awake and comes nearer to its end. One that was never
-- started stays so.
pub record Moved (a b c : ℕ) (x y : Flow) : Type 0 where
  pub destructor_called : y.destructor_called ≡ x.destructor_called
  pub connect_running : y.connect_running ≡ x.connect_running
  pub send_running : y.send_running ≡ x.send_running
  pub listen_running : y.listen_running ≡ x.listen_running
  pub send_idle : x.send_thread ≡ ThreadPc.not_started → y.send_thread ≡ ThreadPc.not_started
  pub listen_idle : x.listen_thread ≡ ThreadPc.not_started → y.listen_thread ≡ ThreadPc.not_started
  pub connects :
      x.destructor_called ≡ true
      → x.connect_running ≡ false
      → connect_rests x.connect_thread ≡ false
      → (connect_rests y.connect_thread ≡ false)
        × (connect_left y.connect_thread ≤ connect_left x.connect_thread - a)
  pub sends :
      x.destructor_called ≡ true
      → x.send_running ≡ false
      → rests x.send_thread ≡ false
      → (rests y.send_thread ≡ false) × (send_left y.send_thread ≤ send_left x.send_thread - b)
  pub listens :
      x.destructor_called ≡ true
      → x.listen_running ≡ false
      → rests x.listen_thread ≡ false
      → (rests y.listen_thread ≡ false)
        × (listen_left y.listen_thread ≤ listen_left x.listen_thread - c)

pub Moved-refl : (x : Flow) → Moved 0 0 0 x x
Moved-refl x = record {
  destructor_called = refl;
  connect_running = refl;
  send_running = refl;
  listen_running = refl;
  send_idle = λ e. e;
  listen_idle = λ e. e;
  connects = λ d r w. (w, omega arith);
  sends = λ d r w. (w, omega arith);
  listens = λ d r w. (w, omega arith);
}

pub Moved-trans :
    {a b c a' b' c' i j k : ℕ} {x y z : Flow}
    → i ≡ a + a'
    → j ≡ b + b'
    → k ≡ c + c'
    → Moved a b c x y
    → Moved a' b' c' y z
    → Moved i j k x z
Moved-trans ei ej ek m n = record {
  destructor_called = n.destructor_called ∙ m.destructor_called;
  connect_running = n.connect_running ∙ m.connect_running;
  send_running = n.send_running ∙ m.send_running;
  listen_running = n.listen_running ∙ m.listen_running;
  send_idle = λ e. n.send_idle (m.send_idle e);
  listen_idle = λ e. n.listen_idle (m.listen_idle e);
  connects = λ d r w.
      let (awake, near) = m.connects d r w in
      let (awake', near') = n.connects (m.destructor_called ∙ d) (m.connect_running ∙ r) awake in
      (awake', omega (arith, near, near'));
  sends = λ d r w.
      let (awake, near) = m.sends d r w in
      let (awake', near') = n.sends (m.destructor_called ∙ d) (m.send_running ∙ r) awake in
      (awake', omega (arith, near, near'));
  listens = λ d r w.
      let (awake, near) = m.listens d r w in
      let (awake', near') = n.listens (m.destructor_called ∙ d) (m.listen_running ∙ r) awake in
      (awake', omega (arith, near, near'));
}

woken-idle :
    (p q : ThreadPc) → (q ≡ p) ⊎ (q ≡ woken p) → p ≡ ThreadPc.not_started → q ≡ ThreadPc.not_started
woken-idle p q h e = ground arith

woken-left :
    (p q : ThreadPc)
    → (q ≡ p) ⊎ (q ≡ woken p)
    → rests p ≡ false
    → (rests q ≡ false) × (listen_left q ≤ listen_left p - 0)
woken-left p q h e = ground arith

Still-Moved : {x y : Flow} → Still x y → Moved 0 0 0 x y
Still-Moved f = record {
  destructor_called = f.destructor_called;
  connect_running = f.connect_running;
  send_running = f.send_running;
  listen_running = f.listen_running;
  send_idle = λ e. f.send_thread ∙ e;
  listen_idle = woken-idle _ _ f.listen_thread;
  connects = λ d r w. rw f.connect_thread (w, omega arith);
  sends = λ d r w. rw f.send_thread (w, omega arith);
  listens = λ d r w. woken-left _ _ f.listen_thread w;
}

Moved-Still : {a b c : ℕ} {x y z : Flow} → Moved a b c x y → Still y z → Moved a b c x z
Moved-Still m f = Moved-trans (omega arith) (omega arith) (omega arith) m (Still-Moved f)

Still-send :
    {x y : Flow} (p : ThreadPc)
    → Still x y
    → Still (record x { send_thread = p }) (record y { send_thread = p })
Still-send p f = record {
  destructor_called = f.destructor_called;
  connect_running = f.connect_running;
  send_running = f.send_running;
  listen_running = f.listen_running;
  connect_thread = f.connect_thread;
  send_thread = refl;
  listen_thread = f.listen_thread;
}

Still-listen :
    {x y : Flow} (p : ThreadPc)
    → Still x y
    → Still (record x { listen_thread = p }) (record y { listen_thread = p })
Still-listen p f = record {
  destructor_called = f.destructor_called;
  connect_running = f.connect_running;
  send_running = f.send_running;
  listen_running = f.listen_running;
  connect_thread = f.connect_thread;
  send_thread = f.send_thread;
  listen_thread = inl refl;
}

module _ {I : ISocket} where
  -- What is steady does not move a thread on.
  Steady-Moved :
      {A : Type 0} {a b c : ℕ} (m : Action I A) (x : Flow) (s : State I)
      → Steady m
      → Moved a b c x (flow s)
      → Post (λ _ t. Moved a b c x (flow t)) (m s)
  Steady-Moved m x s h moved = Post-mono _ _ (m s) (h.at s) λ _ t e. Moved-Still moved e

  pop-Steady : Steady (do lock_data {I = I}; pop_front; unlock_data)
  pop-Steady = search (steady, pop_front-Steady) depth 8

  -- Serving the queue puts the thread at the head of its loop.
  send_process-Moved :
      (s : State I)
      → Post
          (λ _ t. Still (record (flow s) { send_thread = ThreadPc.at_top }) (flow t))
          (send_process s)
  unfolding send_process
  send_process-Moved s =
      Post-bind (λ _ t. Still (flow s) (flow t)) _ (lock_data s) _ (Steady-lock_data.at s)
        λ _ t e.
          Post-bind (λ _ u. Still (flow t) (flow u)) _ _ _ ((send_front-Steady t.data_to_send).at t)
            λ _ u e'.
              Post-bind (λ _ v. Still (flow u) (flow v)) _ _ _ (Steady-unlock_data.at u)
                λ _ v e''. Still-send ThreadPc.at_top (Still-trans e (Still-trans e' e''))

  send_turn_at-Moved :
      (pc : ThreadPc) (s : State I)
      → s.send_thread ≡ pc
      → Post (λ _ t. Moved 0 1 0 (flow s) (flow t)) (send_turn_at pc s)
  unfolding send_turn_at
  send_turn_at-Moved ThreadPc.not_started s e = ground arith
  send_turn_at-Moved ThreadPc.finished s e = ground arith
  send_turn_at-Moved ThreadPc.asleep s e = ground arith
  send_turn_at-Moved ThreadPc.at_top s e =
      Post-if (λ _ t. Moved 0 1 0 (flow s) (flow t)) (not s.send_thread_running) _ _ s
        (λ stop. ground arith)
        λ run.
          Post-if (λ _ t. Moved 0 1 0 (flow s) (flow t)) (wrap8 (length s.data_to_send) == 0) _ _ s
            (λ none_there. ground arith)
            λ some_there.
              Post-mono (λ _ t. Still (record (flow s) { send_thread = ThreadPc.at_top }) (flow t))
                _ (send_process s) (send_process-Moved s)
                λ _ t f. Moved-Still (ground (arith, e, run)) f
  send_turn_at-Moved ThreadPc.waiting s e =
      Post-if (λ _ t. Moved 0 1 0 (flow s) (flow t))
        (not (length s.data_to_send == 0) || s.destructor_called) send_process _ s
        (λ go.
          Post-mono (λ _ t. Still (record (flow s) { send_thread = ThreadPc.at_top }) (flow t)) _
            (send_process s) (send_process-Moved s) λ _ t f. Moved-Still (ground (arith, e)) f)
        λ stay. ground (arith, e, stay)

  -- Once the destructor has been called, the thread does not wait on.
  asleep-destructor_called :
      (s : State I) → not (listen_awake s) ≡ true → s.destructor_called ≡ false
  unfolding listen_awake
  asleep-destructor_called s h = ground arith

  top_listen :
      (s : State I)
      → s.listen_thread ≡ ThreadPc.at_top
      → Moved 0 0 1 (flow s) (record (flow s) {
        listen_thread = if s.listen_thread_running then ThreadPc.waiting else ThreadPc.finished;
      })
  top_listen s e = ground (arith, e)

  served_listen :
      (s : State I)
      → s.listen_thread ≡ ThreadPc.waiting
      → s.destructor_called ≡ false
      → Moved 0 0 1 (flow s) (record (flow s) { listen_thread = ThreadPc.at_top })
  served_listen s e alive = ground (arith, e, alive)

  listen_turn_at-Moved :
      (pc : ThreadPc) (s : State I)
      → s.listen_thread ≡ pc
      → Post (λ _ t. Moved 0 0 1 (flow s) (flow t)) (listen_turn_at pc s)
  unfolding listen_turn_at
  listen_turn_at-Moved ThreadPc.not_started s e = ground arith
  listen_turn_at-Moved ThreadPc.finished s e = ground arith
  listen_turn_at-Moved ThreadPc.asleep s e = ground arith
  listen_turn_at-Moved ThreadPc.at_top s e =
      Post-bind (λ _ t. Still (flow s) (flow t)) (λ _ t. Moved 0 0 1 (flow s) (flow t))
        (when s.listen_thread_running listen_enable s) _
        ((Steady-when s.listen_thread_running listen_enable listen_enable-Steady).at s)
        λ _ t f. Moved-Still (top_listen s e) (Still-listen _ f)
  listen_turn_at-Moved ThreadPc.waiting s e =
      Post-if (λ _ t. Moved 0 0 1 (flow s) (flow t)) (not (listen_awake s)) _ _ s
        (λ asleep. ground (arith, e, asleep-destructor_called s asleep))
        λ awake.
          Post-if (λ _ t. Moved 0 0 1 (flow s) (flow t)) s.destructor_called _ _ s
            (λ stop. ground (arith, e, stop))
            λ go_on.
              Post-bind (λ _ t. Still (flow s) (flow t)) (λ _ t. Moved 0 0 1 (flow s) (flow t))
                (listen_serve s) _ (listen_serve-Steady.at s)
                λ _ t f. Moved-Still (served_listen s e go_on) (Still-listen ThreadPc.at_top f)

module _ {I : ISocket} (sleep_for : ℤ → I.World → ℤ × I.World) where
  connect_turn_at-Moved :
      (pc : ConnectPc) (s : State I)
      → s.connect_thread ≡ pc
      → Post (λ _ t. Moved 1 0 0 (flow s) (flow t)) (connect_turn_at sleep_for pc s)
  unfolding connect_turn_at lock_data unlock_data
  connect_turn_at-Moved ConnectPc.not_started s e = ground arith
  connect_turn_at-Moved ConnectPc.finished s e = ground arith
  connect_turn_at-Moved ConnectPc.asleep s e = ground arith
  connect_turn_at-Moved ConnectPc.at_top s e = ground arith
  connect_turn_at-Moved ConnectPc.waiting s e = ground arith
  connect_turn_at-Moved (ConnectPc.trying zero) s e =
      Steady-Moved (do lock_data; pop_front; unlock_data) (flow s)
        (record s { connect_thread = ConnectPc.at_top }) pop-Steady (ground arith)
  connect_turn_at-Moved (ConnectPc.trying (suc i)) s e =
      Steady-Moved (connect_attempt sleep_for) (flow s)
        (record s { connect_thread = ConnectPc.trying i }) (connect_attempt-Steady sleep_for)
        (ground arith)

  pub connect_turn-Moved :
      (s : State I) → Post (λ _ t. Moved 1 0 0 (flow s) (flow t)) (connect_turn sleep_for s)
  unfolding connect_turn
  connect_turn-Moved s = connect_turn_at-Moved s.connect_thread s refl

module _ {I : ISocket} where
  pub send_turn-Moved : (s : State I) → Post (λ _ t. Moved 0 1 0 (flow s) (flow t)) (send_turn s)
  unfolding send_turn
  send_turn-Moved s = send_turn_at-Moved s.send_thread s refl

  pub listen_turn-Moved :
      (s : State I) → Post (λ _ t. Moved 0 0 1 (flow s) (flow t)) (listen_turn s)
  unfolding listen_turn
  listen_turn-Moved s = listen_turn_at-Moved s.listen_thread s refl
