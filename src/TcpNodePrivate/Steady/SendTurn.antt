-- ===== src/TcpNodePrivate/Steady/SendTurn.antt =====
-- src/TcpNodePrivate.cpp: what a turn of the send thread does with its queue.
use simpwire.Prelude.{ℕ, none, some, Option, List, [], ◌∷◌}
use simpwire.ISocket.{ISocket, Bytes}
use simpwire.PeerPrivate.{PeerPrivate}
use simpwire.TcpNodePrivate.State.{Callback}
use simpwire.TcpNodePrivate.Map.{find}
use simpwire.TcpNodePrivate.SendThread.{
  send_unknown, send_done, send_failed, send_through, send_found, send_one, send_front,
}
use simpwire.TcpNodePrivate.Steady.{Steady, steady}
use simpwire.TcpNodePrivate.Steady.Notices.{notices}

module _ {I : ISocket} where
  send_unknown-Steady : Steady (send_unknown {I = I})
  unfolding send_unknown
  send_unknown-Steady = search notices depth 10

  send_done-Steady : (p : PeerPrivate) (n : ℕ) → Steady (send_done {I = I} p n)
  unfolding send_done
  send_done-Steady p n = search notices depth 10

  send_failed-Steady : (f : Callback) (k a : ℕ) → Steady (send_failed {I = I} f k a)
  unfolding send_failed
  send_failed-Steady none k a = search notices
  send_failed-Steady (some f) k a = search notices depth 10

  send_through-Steady :
      (k : ℕ) (p : PeerPrivate) (dat : Bytes) (sock : Option ℕ)
      → Steady (send_through {I = I} k p dat sock)
  unfolding send_through
  send_through-Steady k p dat none = record { at = λ s. tt }
  send_through-Steady k p dat (some a) =
      search (steady, send_done-Steady, send_failed-Steady) depth 10

  send_found-Steady :
      (k : ℕ) (dat : Bytes) (o : Option PeerPrivate) → Steady (send_found {I = I} k dat o)
  unfolding send_found
  send_found-Steady k dat none = send_unknown-Steady
  send_found-Steady k dat (some p) = search (steady, send_through-Steady)

  send_one-Steady : (k : ℕ) (dat : Bytes) → Steady (send_one {I = I} k dat)
  unfolding send_one
  send_one-Steady k dat = record { at = λ s. (send_found-Steady k dat (find k s.peers)).at s }

  pub send_front-Steady : (q : List (ℕ × Bytes)) → Steady (send_front {I = I} q)
  unfolding send_front
  send_front-Steady [] = search steady
  send_front-Steady ((k, dat) ∷ q) = search (steady, send_one-Steady) depth 8
