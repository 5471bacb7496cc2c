-- ===== src/TcpNode/Destruction.antt =====
-- src/TcpNodePrivate.cpp, ~TcpNodePrivate as a whole: between its parts all threads run on, in any
-- order, until the one that is joined is finished.
use simpwire.Prelude.{
  IsPositive, if◌then◌else◌, inl, inr, ℕ, suc, ◌+◌, ◌≤◌, ◌<◌, ◌^◌, Bool, true, false, ◌≡◌, refl,
  ◌∙◌, ◌⊎◌, none, List, [], ◌∷◌, length, arith, ℤ,
}
use simpwire.ISocket.{ISocket}
use simpwire.TcpNodePrivate.State.{State, ConnectPc, ThreadPc, woken, connect_woken}
use simpwire.TcpNodePrivate.Monad.{Action, pure, ◌>>◌, modify}
use simpwire.TcpNodePrivate.Requests.{disconnect_all}
use simpwire.TcpNodePrivate.Destructor.{
  stop_connect_thread, stop_send_thread, stop_listen_thread, after_joins,
}
use simpwire.TcpNodePrivate.ListenThread.{listen_turn}
use simpwire.TcpNodePrivate.ConnectThread.{connect_turn}
use simpwire.TcpNodePrivate.SendThread.{send_turn}
use simpwire.TcpNodePrivate.Contracts.{Ends, Ends-bind, Ends-mono}
use simpwire.TcpNodePrivate.Invariant.{Inv}
use simpwire.TcpNodePrivate.Sections.{Sect, Sect-Frame, Sect-Inv, Inv-Sect}
use simpwire.TcpNodePrivate.Safety.ListenThread.{listen_turn-Sect}
use simpwire.TcpNodePrivate.Safety.ConnectThread.{connect_turn-Sect}
use simpwire.TcpNodePrivate.Safety.SendThread.{send_turn-Sect}
use simpwire.TcpNodePrivate.Safety.Positions.{stop_connect_thread-Sect}
use simpwire.TcpNodePrivate.Leak.{after_joins-peers}
use simpwire.TcpNodePrivate.Steady.{Still, Flow, flow, Ends-Post, Steady, steady}
use simpwire.TcpNodePrivate.Stopping.{
  connect_rests, rests, connect_left, send_left, listen_left, Moved, Moved-refl, Moved-trans,
  connect_turn-Moved, send_turn-Moved, listen_turn-Moved,
}

pub data Turn : Type 0 where
  of_connect of_send of_listen : Turn

-- How many of the turns are the connect thread's, and so on.
abbrev pub connect_count : List Turn → ℕ
connect_count [] = 0
connect_count (of_connect ∷ ts) = suc (connect_count ts)
connect_count (of_send ∷ ts) = connect_count ts
connect_count (of_listen ∷ ts) = connect_count ts

abbrev pub send_count : List Turn → ℕ
send_count [] = 0
send_count (of_connect ∷ ts) = send_count ts
send_count (of_send ∷ ts) = suc (send_count ts)
send_count (of_listen ∷ ts) = send_count ts

abbrev pub listen_count : List Turn → ℕ
listen_count [] = 0
listen_count (of_connect ∷ ts) = listen_count ts
listen_count (of_send ∷ ts) = listen_count ts
listen_count (of_listen ∷ ts) = suc (listen_count ts)

module _ {I : ISocket} (sleep_for : ℤ → I.World → ℤ × I.World) where
  unfoldable pub turn : Turn → Action I (Unit {0})
  turn of_connect = connect_turn sleep_for
  turn of_send = send_turn
  turn of_listen = listen_turn

  unfoldable pub turns : List Turn → Action I (Unit {0})
  turns [] = pure tt
  turns (x ∷ xs) = do turn x; turns xs

  -- The destructor; `xs`, `ys` and `zs` are the turns that the threads make while it waits in its
  -- three joins.
  unfoldable pub destruct : (xs ys zs : List Turn) → Action I (Unit {0})
  destruct xs ys zs = do
    modify stop_connect_thread
    turns xs
    modify stop_send_thread
    turns ys
    modify stop_listen_thread
    turns zs
    after_joins

send_left-le : (pc : ThreadPc) → send_left pc ≤ 2
send_left-le pc = ground arith

listen_left-le : (pc : ThreadPc) → listen_left pc ≤ 1
listen_left-le pc = ground arith

connect_left-zero :
    (pc : ConnectPc)
    → connect_rests pc ≡ false
    → connect_left pc ≤ 0
    → pc ≡ ConnectPc.finished ⊎ pc ≡ ConnectPc.not_started
connect_left-zero pc w h = ground arith

send_left-zero :
    (pc : ThreadPc)
    → rests pc ≡ false
    → send_left pc ≤ 0
    → pc ≡ ThreadPc.finished ⊎ pc ≡ ThreadPc.not_started
send_left-zero pc w h = ground arith

listen_left-zero :
    (pc : ThreadPc)
    → rests pc ≡ false
    → listen_left pc ≤ 0
    → pc ≡ ThreadPc.finished ⊎ pc ≡ ThreadPc.not_started
listen_left-zero pc w h = ground arith

-- A notification does not bring back what is finished or was never started.
over-woken :
    (p q : ThreadPc)
    → (q ≡ p) ⊎ (q ≡ woken p)
    → p ≡ ThreadPc.finished ⊎ p ≡ ThreadPc.not_started
    → q ≡ ThreadPc.finished ⊎ q ≡ ThreadPc.not_started
over-woken p q h e = ground arith

-- Where the thread runs or was never started, the destructor's notification leaves it awake.
woken_connect :
    (running : Bool) (pc : ConnectPc)
    → (running ≡ true) ⊎ (pc ≡ ConnectPc.not_started)
    → (connect_rests (if running then connect_woken pc else pc) ≡ false)
      × (connect_left (if running then connect_woken pc else pc) ≤ connect_left (connect_woken pc))
woken_connect running pc h = ground arith

woken_thread :
    (running : Bool) (pc : ThreadPc)
    → (running ≡ true) ⊎ (pc ≡ ThreadPc.not_started)
    → rests (if running then woken pc else pc) ≡ false
woken_thread running pc h = ground arith

still_runs :
    {r r' : Bool} {p p' : ThreadPc}
    → (r ≡ true) ⊎ (p ≡ ThreadPc.not_started)
    → r' ≡ r
    → (p ≡ ThreadPc.not_started → p' ≡ ThreadPc.not_started)
    → (r' ≡ true) ⊎ (p' ≡ ThreadPc.not_started)
still_runs (inl e) same idle = inl (same ∙ e)
still_runs (inr e) same idle = inr (idle e)

record Over (x : Flow) : Type 0 where
  connect_over : x.connect_thread ≡ ConnectPc.finished ⊎ x.connect_thread ≡ ConnectPc.not_started
  send_over : x.send_thread ≡ ThreadPc.finished ⊎ x.send_thread ≡ ThreadPc.not_started
  listen_over : x.listen_thread ≡ ThreadPc.finished ⊎ x.listen_thread ≡ ThreadPc.not_started

-- The three waits, one after the other.
waits-Over :
    {a b c a' b' c' a'' b'' c'' : ℕ} (x y z w : Flow)
    → Moved a b c
        (record x {
          destructor_called = true;
          connect_running = false;
          connect_thread =
              if x.connect_running then connect_woken x.connect_thread else x.connect_thread;
        })
        y
    → Moved a' b' c'
        (record y {
          send_running = false;
          send_thread = if y.send_running then woken y.send_thread else y.send_thread;
        })
        z
    → Moved a'' b'' c''
        (record z {
          listen_running = false;
          listen_thread = if z.listen_running then woken z.listen_thread else z.listen_thread;
        })
        w
    → (x.connect_running ≡ true) ⊎ (x.connect_thread ≡ ConnectPc.not_started)
    → (x.send_running ≡ true) ⊎ (x.send_thread ≡ ThreadPc.not_started)
    → (x.listen_running ≡ true) ⊎ (x.listen_thread ≡ ThreadPc.not_started)
    → connect_left (connect_woken x.connect_thread) ≤ a
    → 2 ≤ b'
    → 1 ≤ c''
    → Over w
waits-Over x y z w m n o runs_c runs_s runs_l enough_a enough_b enough_c =
    let d : y.destructor_called ≡ true = m.destructor_called in
    let r : y.connect_running ≡ false = m.connect_running in
    let d' : z.destructor_called ≡ true = n.destructor_called ∙ d in
    let r' : z.connect_running ≡ false = n.connect_running ∙ r in
    let q' : z.send_running ≡ false = n.send_running in
    let (up, near) = woken_connect x.connect_running x.connect_thread runs_c in
    let (c, cl) = m.connects refl refl up in
    let (c', cl') = n.connects d r c in
    let (c'', cl'') = o.connects d' r' c' in
    let (s, sl) =
      n.sends d refl (
        woken_thread y.send_running y.send_thread (still_runs runs_s m.send_running m.send_idle)) in
    let (s', sl') = o.sends d' q' s in
    let (l, ll) = o.listens d' refl (
      woken_thread z.listen_running z.listen_thread (
        still_runs runs_l (n.listen_running ∙ m.listen_running)
          λ e. n.listen_idle (m.listen_idle e))) in
    record {
      connect_over = connect_left-zero _ c'' (omega (arith, enough_a, near, cl, cl', cl''));
      send_over = send_left-zero _ s' (
          omega (
            arith,
            enough_b,
            sl,
            sl',
            send_left-le (if y.send_running then woken y.send_thread else y.send_thread),
          ));
      listen_over = listen_left-zero _ l (
          omega (
            arith,
            enough_c,
            ll,
            listen_left-le (if z.listen_running then woken z.listen_thread else z.listen_thread),
          ));
    }

Still-Over : {x y : Flow} → Over x → Still x y → Over y
Still-Over h f = record {
  connect_over = rw f.connect_thread h.connect_over;
  send_over = rw f.send_thread h.send_over;
  listen_over = over-woken _ _ f.listen_thread h.listen_over;
}

module _ {I : ISocket} where
  Sect-upto : {d c : Bool} {n l : ℕ} {s : State I} (m : ℕ) → n ≤ m → Sect d c n l s → Sect d c m l s
  Sect-upto m le h = record {
    data_lock = h.data_lock;
    callback_lock = h.callback_lock;
    counted = omega (arith, h.counted);
    listener = h.listener;
    core = h.core;
  }

  after_joins-Steady : Steady (after_joins {I = I})
  unfolding after_joins disconnect_all
  after_joins-Steady = search steady depth 12

module _ {I : ISocket} (sleep_for : ℤ → I.World → ℤ × I.World)
    (ticks : (ms : ℤ) (w : I.World) → IsPositive (sleep_for ms w).0) where
  turns-Moved :
      {n l : ℕ} (m : ℕ) (ts : List Turn) (s : State I)
      → Sect false false n l s
      → n + length ts ≤ m
      → m < 2 ^ 64
      → Ends
          (λ _ t.
            Sect false false m l t
            × Moved (connect_count ts) (send_count ts) (listen_count ts) (flow s) (flow t))
          (turns sleep_for ts s)
  unfolding turns turn
  turns-Moved m [] s h le fits = record {
    holds = (Sect-upto m (omega arith) h, Moved-refl (flow s));
  }
  turns-Moved m (of_connect ∷ ts) s h le fits =
      Ends-bind _
        (Ends-Post (connect_turn-Sect sleep_for ticks s h (omega (arith, h.counted)))
          (connect_turn-Moved sleep_for s))
        λ _ t (ht, moved).
          Ends-mono (turns-Moved m ts t ht (omega arith) fits)
            λ _ u (hu, rest). (hu, Moved-trans (omega arith) (omega arith) (omega arith) moved rest)
  turns-Moved m (of_send ∷ ts) s h le fits =
      Ends-bind _ (Ends-Post (send_turn-Sect s h) (send_turn-Moved s)) λ _ t (ht, moved).
        Ends-mono (turns-Moved m ts t ht (omega arith) fits)
          λ _ u (hu, rest). (hu, Moved-trans (omega arith) (omega arith) (omega arith) moved rest)
  turns-Moved m (of_listen ∷ ts) s h le fits =
      Ends-bind _ (Ends-Post (listen_turn-Sect s h (omega arith)) (listen_turn-Moved s))
        λ _ t (ht, moved).
          Ends-mono (turns-Moved m ts t ht (omega arith) fits)
            λ _ u (hu, rest). (hu, Moved-trans (omega arith) (omega arith) (omega arith) moved rest)

  -- The destructor ends. Let a node have the invariant, and let each of
  -- its threads be marked as running or never have been started; they may stand anywhere, asleep as
  -- well. Let the threads run on in any order while the destructor waits: during its first join with
  -- as many turns of the connect thread as that may still have to go, n + 2 if n attempts are left;
  -- during the second with two turns of the send thread, and during the third with one of the
  -- listen thread. Let the counter of connections have room for all the turns, and let every sleep
  -- take time. A thread that is asleep goes on only when it is notified; looking at the condition
  -- and falling asleep are one step. Then there is no fault, every thread is finished or was never
  -- started, and the listener is deleted.
  pub destruct-finished :
      (xs ys zs : List Turn) (s : State I)
      → Inv s
      → (s.connect_thread_running ≡ true) ⊎ (s.connect_thread ≡ ConnectPc.not_started)
      → (s.send_thread_running ≡ true) ⊎ (s.send_thread ≡ ThreadPc.not_started)
      → (s.listen_thread_running ≡ true) ⊎ (s.listen_thread ≡ ThreadPc.not_started)
      → connect_left (connect_woken s.connect_thread) ≤ connect_count xs
      → 2 ≤ send_count ys
      → 1 ≤ listen_count zs
      → s.connection_counter + (length xs + (length ys + length zs)) < 2 ^ 64
      → Ends
          (λ _ t.
            (t.connect_thread ≡ ConnectPc.finished ⊎ t.connect_thread ≡ ConnectPc.not_started)
            × (t.send_thread ≡ ThreadPc.finished ⊎ t.send_thread ≡ ThreadPc.not_started)
            × (t.listen_thread ≡ ThreadPc.finished ⊎ t.listen_thread ≡ ThreadPc.not_started)
            × (t.store.cell s.listener ≡ none))
          (destruct sleep_for xs ys zs s)
  unfolding destruct stop_connect_thread stop_send_thread stop_listen_thread
  destruct-finished xs ys zs s inv runs_c runs_s runs_l enough_x enough_y enough_z fits =
      let c = s.connection_counter in
      Ends-bind _
        (turns-Moved (c + length xs) xs (stop_connect_thread s)
          (stop_connect_thread-Sect s (Sect-Inv inv)) (omega arith) (omega arith))
        λ _ t (ht, mt).
          Ends-bind _
            (turns-Moved (c + length xs + length ys) ys (stop_send_thread t)
              (Sect-Frame ht (ground arith)) (omega arith) (omega arith))
            λ _ u (hu, mu).
              Ends-bind _
                (turns-Moved (c + length xs + length ys + length zs) zs (stop_listen_thread u)
                  (Sect-Frame hu (ground arith)) (omega arith) (omega arith))
                λ _ v (hv, mv).
                  Ends-mono
                    (Ends-Post (after_joins-peers v (Inv-Sect hv)) (after_joins-Steady.at v))
                    λ _ w (gone, still).
                      let over =
                        Still-Over
                          (waits-Over (flow s) (flow t) (flow u) (flow v) mt mu mv runs_c runs_s
                            runs_l enough_x enough_y enough_z)
                          still in
                      (
                        over.connect_over,
                        over.send_over,
                        over.listen_over,
                        rw (← hv.listener) gone.0,
                      )
