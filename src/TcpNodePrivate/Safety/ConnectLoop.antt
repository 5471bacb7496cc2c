-- ===== src/TcpNodePrivate/Safety/ConnectLoop.antt =====
-- The loop of an attempt to connect, and the steps of an attempt that leave the invariant alone.
use simpwire.Prelude.{
  ◌+ℤ◌, refl, IsPositive, ℕ, zero, suc, ◌+◌, ◌≤◌, Bool, false, ◌≡◌, ◌≢◌, none, some, arith, not,
  ◌==◌, ◌&&◌, Text, ℤ, pos, negsuc,
}
use simpwire.ISocket.{ISocket}
use simpwire.TcpNodePrivate.State.{State, Callback, Arguments, of_message}
use simpwire.TcpNodePrivate.Monad.{pure}
use simpwire.TcpNodePrivate.Contracts.{
  Ends, Ends-bind, Ends-again, Ends-mono, Frame, Frame-refl, Frame-trans, call_socket-Frame,
}
use simpwire.TcpNodePrivate.Frames.{create_error_message-Frame}
use simpwire.TcpNodePrivate.Sections.{Sect, Sect-Frame}
use simpwire.TcpNodePrivate.Safety.Listener.{invoke-Frame}
use simpwire.TcpNodePrivate.Safety.Loose.{Loose, adopt_socket-Loose}
use simpwire.TcpNodePrivate.ConnectThread.{
  is_timeup, connect_rounds, notify_locked, sleep, connect_loop, create_socket,
  report_connect_error,
}

-- Before the time is up the rounds are not used up.
rounds_left :
    (timeout : ℤ) (fuel e : ℕ) (elapsed : ℤ)
    → elapsed ≡ pos e
    → connect_rounds timeout ≤ fuel + e
    → is_timeup timeout elapsed ≡ false
    → 1 ≤ fuel
unfolding connect_rounds is_timeup
rounds_left (pos ms) fuel e (pos m) known h t = ground (arith, known)
rounds_left (pos ms) fuel e (negsuc m) known h t = cc
rounds_left (negsuc k) fuel e (pos m) known h t = cc
rounds_left (negsuc k) fuel e (negsuc m) known h t = cc

later :
    {e n : ℕ} (elapsed ns : ℤ)
    → elapsed ≡ pos e
    → ns ≡ pos (suc n)
    → elapsed +ℤ ns ≡ pos (e + suc n)
later elapsed ns known tick = rw (known, tick) refl

pub connect_rounds_positive : (timeout : ℤ) → 1 ≤ connect_rounds timeout
unfolding connect_rounds
connect_rounds_positive (pos ms) = omega arith
connect_rounds_positive (negsuc k) = omega arith

module _ {I : ISocket} where
  pub notify_locked-Frame :
      (f : Callback) (args : Arguments) (s : State I)
      → Ends (λ _ t. Frame s t) (notify_locked f args s)
  unfolding notify_locked
  notify_locked-Frame none args s = record { holds = Frame-refl s }
  notify_locked-Frame (some f) args s = invoke-Frame f args s

  pub report_connect_error-Frame :
      (f : Callback) (ip : Text) (port a : ℕ) (s : State I)
      → s.store.cell a ≢ none
      → Ends (λ _ t. Frame s t) (report_connect_error f ip port a s)
  unfolding report_connect_error
  report_connect_error-Frame none ip port a s live = record { holds = Frame-refl s }
  report_connect_error-Frame (some f) ip port a s live =
      Ends-bind _ (create_error_message-Frame _ _ a s live)
        λ msg t g. Ends-mono (invoke-Frame f (of_message msg) t) λ _ u k. Frame-trans g k

  pub create_socket-Loose :
      {d c : Bool} {n l : ℕ} (s : State I)
      → Sect d c n l s
      → Ends (λ a t. Frame s t × Loose a (suc t.connection_counter) t) (create_socket s)
  unfolding create_socket
  create_socket-Loose s h =
      let (o, w) = s.create_new_socket s.store.world in
      let s' : State I = record s { store = record s.store { world = w } } in
      let f : Frame s s' = ground arith in
      Ends-mono (adopt_socket-Loose o s' (Sect-Frame h f)) λ a t (g, free). (Frame-trans f g, free)

  sleep-Frame :
      (sleep_for : ℤ → I.World → ℤ × I.World)
      → ((ms : ℤ) (w : I.World) → IsPositive (sleep_for ms w).0)
      → (s : State I) → Ends (λ ns t. Frame s t × IsPositive ns) (sleep sleep_for s)
  unfolding sleep
  sleep-Frame sleep_for ticks s = record {
    holds = (ground arith, ticks s.sleep_time s.store.world);
  }

  -- If every sleep takes time, the loop of an attempt, with as many rounds as the rest of the
  -- timeout asks for and at least one, on a socket that exists, ends without a fault (it does not
  -- run out of rounds), and leaves alone the mutexes, the listener, the peers, the counter, the
  -- queue, the thread's position and the timeout, and deletes no object.
  pub connect_loop-Frame :
      (sleep_for : ℤ → I.World → ℤ × I.World)
      → ((ms : ℤ) (w : I.World) → IsPositive (sleep_for ms w).0)
      → (fuel a : ℕ) (ip : Text) (port e : ℕ) (elapsed : ℤ) (s : State I) → elapsed ≡ pos e
      → connect_rounds s.connect_timeout ≤ fuel + e
      → 1 ≤ fuel
      → s.store.cell a ≢ none
      → Ends (λ _ t. Frame s t) (connect_loop sleep_for fuel a ip port elapsed s)
  unfolding connect_loop
  connect_loop-Frame sleep_for ticks zero a ip port e elapsed s known enough some_left live =
      absurd (omega arith)
  connect_loop-Frame sleep_for ticks (suc fuel) a ip port e elapsed s known enough some_left live =
      Ends-bind _ (call_socket-Frame (I.connect ip port) a s live) λ success t f.
        let livet = f.store.keeps a live in
        Ends-bind _ (call_socket-Frame I.get_last_errno a t livet) λ errno u g.
          let fg = Frame-trans f g in
          Ends-bind _ (sleep-Frame sleep_for ticks u) λ ns v (k, (n, tick)).
            let fgk = Frame-trans fg k in
            Ends-again
              (not success && errno == 0 && not (is_timeup v.connect_timeout (elapsed +ℤ ns)))
              (connect_loop sleep_for fuel a ip port (elapsed +ℤ ns)) (pure success) v
              (λ more.
                let enough' : connect_rounds v.connect_timeout ≤ fuel + (e + suc n) =
                  rw (fgk.timeout) (omega arith) in
                let sum : elapsed +ℤ ns ≡ pos (e + suc n) = later elapsed ns known tick in
                let left =
                  rounds_left v.connect_timeout fuel (e + suc n) (elapsed +ℤ ns) sum enough'
                    (ground arith) in
                Ends-mono
                  (connect_loop-Frame sleep_for ticks fuel a ip port (e + suc n) (elapsed +ℤ ns) v
                    sum enough' left (fgk.store.keeps a live))
                  λ _ w j. Frame-trans fgk j)
              λ _. record { holds = fgk }
