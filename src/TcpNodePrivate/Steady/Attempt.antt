-- ===== src/TcpNodePrivate/Steady/Attempt.antt =====
-- src/TcpNodePrivate.cpp: an attempt of the connect thread.
use simpwire.Prelude.{
  ◌+ℤ◌, pos, ℕ, zero, suc, Bool, true, false, none, some, Text, ℤ, ◌==◌, not, ◌&&◌, arith,
}
use simpwire.ISocket.{ISocket}
use simpwire.TcpNodePrivate.State.{Callback}
use simpwire.TcpNodePrivate.Monad.{Action, pure, adopt_socket}
use simpwire.TcpNodePrivate.Accept.{make_peer, next_id}
use simpwire.TcpNodePrivate.ConnectThread.{
  is_timeup, connect_rounds, sleep, connect_loop, create_socket, front, pop_front,
  report_connect_error, connect_failed, connected, connect_attempt,
}
use simpwire.TcpNodePrivate.Steady.{
  Still-refl, flow, Steady, steady, Steady-bind, Steady-if, Steady-lock_data, Steady-unlock_data,
  Steady-call_socket, Steady-pure,
}
use simpwire.TcpNodePrivate.Steady.Notices.{notices}

module _ {I : ISocket} where
  pub make_peer-Steady : (count sock : ℕ) → Steady (make_peer {I = I} count sock)
  unfolding make_peer
  make_peer-Steady count sock = search steady depth 8

  pub next_id-Steady : Steady (next_id {I = I})
  unfolding next_id
  next_id-Steady = search steady depth 8

  create_socket-Steady : Steady (create_socket {I = I})
  unfolding create_socket adopt_socket
  create_socket-Steady = record { at = λ s. Still-refl (flow s) }

  front-Steady : Steady (front {I = I})
  unfolding front
  front-Steady = record { at = λ s. ground arith }

  pub pop_front-Steady : Steady (pop_front {I = I})
  unfolding pop_front
  pop_front-Steady = record { at = λ s. ground arith }

  report-Steady :
      (f : Callback) (ip : Text) (port a : ℕ) → Steady (report_connect_error {I = I} f ip port a)
  unfolding report_connect_error
  report-Steady none ip port a = search notices
  report-Steady (some f) ip port a = search notices depth 8

  connect_failed-Steady : (ip : Text) (port a : ℕ) → Steady (connect_failed {I = I} ip port a)
  unfolding connect_failed
  connect_failed-Steady ip port a = search (steady, report-Steady) depth 10

  connected-Steady : (a : ℕ) → Steady (connected {I = I} a)
  unfolding connected
  connected-Steady a = search (notices, next_id-Steady, make_peer-Steady) depth 14

  again :
      (b : Bool) (m k : Action I Bool)
      → Steady m
      → Steady k
      → Steady (elim b as (λ _. Action I Bool) [ true ↦ m | false ↦ k ])
  again true m k hm hk = hm
  again false m k hm hk = hk

module _ {I : ISocket} (sleep_for : ℤ → I.World → ℤ × I.World) where
  sleep-Steady : Steady (sleep {I = I} sleep_for)
  unfolding sleep
  sleep-Steady = record { at = λ s. Still-refl (flow s) }

  connect_loop-Steady :
      (fuel a : ℕ) (ip : Text) (port : ℕ) (elapsed : ℤ)
      → Steady (connect_loop {I = I} sleep_for fuel a ip port elapsed)
  unfolding connect_loop
  connect_loop-Steady zero a ip port elapsed = record { at = λ s. tt }
  connect_loop-Steady (suc fuel) a ip port elapsed =
      Steady-bind _ _ (Steady-call_socket _ a) λ connect_success.
        Steady-bind _ _ (Steady-call_socket _ a) λ errornum. Steady-bind _ _ sleep-Steady λ ns.
          record {
            at = λ s.
                (again
                    (not connect_success
                      && errornum == 0
                      && not (is_timeup s.connect_timeout (elapsed +ℤ ns)))
                    (connect_loop sleep_for fuel a ip port (elapsed +ℤ ns)) (pure connect_success)
                    (connect_loop-Steady fuel a ip port (elapsed +ℤ ns))
                    (Steady-pure connect_success)).at
                  s;
          }

  pub connect_attempt-Steady : Steady (connect_attempt {I = I} sleep_for)
  unfolding connect_attempt
  connect_attempt-Steady = Steady-bind _ _ create_socket-Steady λ new_peer.
      Steady-bind _ _ Steady-lock_data λ _. Steady-bind _ _ front-Steady λ e.
        Steady-bind _ _ Steady-unlock_data λ _. record {
          at = λ s.
              (Steady-bind _ _
                  (connect_loop-Steady (connect_rounds s.connect_timeout) new_peer e.0 e.1 (pos 0))
                  λ success.
                    Steady-if success (connected new_peer) (connect_failed e.0 e.1 new_peer)
                      (connected-Steady new_peer) (connect_failed-Steady e.0 e.1 new_peer)).at
                s;
        }
