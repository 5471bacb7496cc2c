-- ===== src/Demo/Safety.antt =====
-- Every command of the demo ends without a fault and keeps the node's invariant.
use simpwire.Prelude.{ℕ, Bool, true, false, ◌≤◌, List, [], ◌∷◌, Text, ℤ, text_eq, if◌then◌else◌}
use simpwire.ISocket.{ISocket}
use simpwire.Peer.{Peer}
use simpwire.TcpNodePrivate.State.{State, Callbacks}
use simpwire.TcpNodePrivate.Monad.{Action, ◌>>◌}
use simpwire.TcpNodePrivate.Contracts.{Ends, Ends-bind, Ends-mono}
use simpwire.TcpNodePrivate.Invariant.{Inv}
use simpwire.TcpNodePrivate.Sections.{Sect, Sect-Inv, Inv-Sect}
use simpwire.TcpNode.{Call}
use simpwire.TcpNode.Calls.{
  Kept, set_callback-Sect, all_peers-Sect, receive_buffer_size-Sect, latest_peer-Sect,
}
use simpwire.TcpNode.Safety.{perform-Sect}
use simpwire.Demo.Numbers.{Parsed, value, invalid_argument, out_of_range, stoi, to_unsigned}
use simpwire.Demo.Console.{Line, peer_at, ipv4_word, ipv6_word}
use simpwire.Demo.Commands.{
  Word, word, says, silent, with_number, with_peer, do_connect, do_send, do_listen_version,
  do_listen, show_listening, show_listen_port, set_size, show_size, show_latest_peer, do_disconnect,
  show_peers, dispatch, handle,
}
use simpwire.TcpNodePrivate.Settings.{set_callback, is_listening, listen_port}

module _ {I : ISocket} where
  -- An action that keeps the invariant wherever it starts.
  pub record Keeps {A : Type 0} (m : Action I A) : Type 0 where
    pub kept : (n l : ℕ) (s : State I) → Sect false false n l s → Kept n l (m s)

  says-Keeps : (ls : List Line) → Keeps (says ls)
  says-Keeps ls = record { kept = λ n l s h. record { holds = h } }

  silent-Keeps : (c : Call) → Keeps (silent c)
  silent-Keeps c = record {
    kept = λ n l s h. Ends-bind _ (perform-Sect c s h) λ _ t ht. record { holds = ht };
  }

  pub then-Keeps :
      {A : Type 0} {m : Action I (Unit {0})} {k : Action I A} → Keeps m → Keeps k → Keeps (m >> k)
  then-Keeps hm hk = record {
    kept = λ n l s h. Ends-bind _ (hm.kept n l s h) λ _ t ht. hk.kept n l t ht;
  }

  pub callback-Keeps : (f : Callbacks → Callbacks) → Keeps (set_callback f)
  callback-Keeps f = record { kept = λ n l s h. set_callback-Sect f s h }

  if-Keeps :
      {A : Type 0} (b : Bool) {m k : Action I A} → Keeps m → Keeps k → Keeps (if b then m else k)
  if-Keeps true hm hk = hm
  if-Keeps false hm hk = hk

  stoi-Keeps :
      (r : Parsed) (f : ℤ → Action I (List Line)) (p q : List Line)
      → ((z : ℤ) → Keeps (f z))
      → Keeps (elim r [ value z ↦ f z | invalid_argument ↦ says p | out_of_range ↦ says q ])
  stoi-Keeps (value z) f p q h = h z
  stoi-Keeps invalid_argument f p q h = says-Keeps p
  stoi-Keeps out_of_range f p q h = says-Keeps q

  with_number-Keeps :
      (t : Text) (f : ℤ → Action I (List Line)) → ((z : ℤ) → Keeps (f z)) → Keeps (with_number t f)
  unfolding with_number
  with_number-Keeps t f h = stoi-Keeps (stoi t) f _ _ h

  with_peer-Keeps : (z : ℤ) (c : Peer → Call) → Keeps (with_peer z c)
  unfolding with_peer
  with_peer-Keeps z c = record {
    kept = λ n l s h.
        Ends-bind _ (all_peers-Sect s h)
          λ ps t ht. (silent-Keeps (c (peer_at (to_unsigned 64 z) ps))).kept n l t ht;
  }

  do_connect-Keeps : (ts : List Text) → Keeps (do_connect ts)
  unfolding do_connect
  do_connect-Keeps [] = says-Keeps _
  do_connect-Keeps (ip ∷ []) = says-Keeps _
  do_connect-Keeps (ip ∷ p ∷ more) = with_number-Keeps p _ λ z. silent-Keeps _

  do_send-Keeps : (ts : List Text) → Keeps (do_send ts)
  unfolding do_send
  do_send-Keeps [] = says-Keeps _
  do_send-Keeps (k ∷ []) = says-Keeps _
  do_send-Keeps (k ∷ t ∷ ts) = with_number-Keeps k _ λ z. with_peer-Keeps z _

  do_listen_version-Keeps : (p : ℕ) (t : Text) → Keeps (do_listen_version p t)
  unfolding do_listen_version
  do_listen_version-Keeps p t =
      if-Keeps (text_eq t ipv4_word) (silent-Keeps _)
        (if-Keeps (text_eq t ipv6_word) (silent-Keeps _) (says-Keeps _))

  do_listen-Keeps : (ts : List Text) → Keeps (do_listen ts)
  unfolding do_listen
  do_listen-Keeps [] = says-Keeps _
  do_listen-Keeps (p ∷ []) = with_number-Keeps p _ λ z. silent-Keeps _
  do_listen-Keeps (p ∷ t ∷ more) = with_number-Keeps p _ λ z. do_listen_version-Keeps _ t

  set_size-Keeps : (ts : List Text) → Keeps (set_size ts)
  unfolding set_size
  set_size-Keeps [] = says-Keeps _
  set_size-Keeps (n ∷ more) = with_number-Keeps n _ λ z. silent-Keeps _

  do_disconnect-Keeps : (ts : List Text) → Keeps (do_disconnect ts)
  unfolding do_disconnect
  do_disconnect-Keeps [] = says-Keeps _
  do_disconnect-Keeps (k ∷ more) = with_number-Keeps k _ λ z. with_peer-Keeps z _

  show_listening-Keeps : Keeps show_listening
  unfolding show_listening is_listening
  show_listening-Keeps = record { kept = λ n l s h. record { holds = h } }

  show_listen_port-Keeps : Keeps show_listen_port
  unfolding show_listen_port listen_port
  show_listen_port-Keeps = record { kept = λ n l s h. record { holds = h } }

  show_size-Keeps : Keeps show_size
  unfolding show_size
  show_size-Keeps = record {
    kept = λ n l s h. Ends-bind _ (receive_buffer_size-Sect s h) λ k t ht. record { holds = ht };
  }

  show_latest_peer-Keeps : Keeps show_latest_peer
  unfolding show_latest_peer
  show_latest_peer-Keeps = record {
    kept = λ n l s h. Ends-bind _ (latest_peer-Sect s h) λ pr t ht. record { holds = ht };
  }

  show_peers-Keeps : Keeps show_peers
  unfolding show_peers
  show_peers-Keeps = record {
    kept = λ n l s h. Ends-bind _ (all_peers-Sect s h) λ ps t ht. record { holds = ht };
  }

  dispatch-Keeps : (w : Word) (ts : List Text) → Keeps (dispatch w ts)
  unfolding dispatch
  dispatch-Keeps Word.show_version ts = says-Keeps _
  dispatch-Keeps Word.connect ts = do_connect-Keeps ts
  dispatch-Keeps Word.send ts = do_send-Keeps ts
  dispatch-Keeps Word.listen ts = do_listen-Keeps ts
  dispatch-Keeps Word.listening ts = show_listening-Keeps
  dispatch-Keeps Word.listen_port ts = show_listen_port-Keeps
  dispatch-Keeps Word.set_buffer_size ts = set_size-Keeps ts
  dispatch-Keeps Word.buffer_size ts = show_size-Keeps
  dispatch-Keeps Word.latest ts = show_latest_peer-Keeps
  dispatch-Keeps Word.stop_listening ts = silent-Keeps _
  dispatch-Keeps Word.disconnect ts = do_disconnect-Keeps ts
  dispatch-Keeps Word.disconnect_all ts = silent-Keeps _
  dispatch-Keeps Word.exit ts = says-Keeps _
  dispatch-Keeps Word.peers ts = show_peers-Keeps
  dispatch-Keeps Word.commands ts = says-Keeps _
  dispatch-Keeps Word.invalid ts = says-Keeps _

  handle-Keeps : (ts : List Text) → Keeps (handle ts)
  unfolding handle
  handle-Keeps [] = says-Keeps _
  handle-Keeps (c ∷ ts) = dispatch-Keeps (word c) ts

  -- A command leaves the counter of connections where it is, at most.
  pub handle-Inv :
      (ts : List Text) (s : State I)
      → Inv s
      → Ends (λ _ t. Inv t × (t.connection_counter ≤ s.connection_counter)) (handle ts s)
  handle-Inv ts s h =
      Ends-mono ((handle-Keeps ts).kept s.connection_counter s.listener s (Sect-Inv h))
        λ _ t ht. (Inv-Sect ht, ht.counted)
