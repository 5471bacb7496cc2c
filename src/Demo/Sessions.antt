-- ===== src/Demo/Sessions.antt =====
-- Whole sessions of the demo from a new node.
use simpwire.Prelude.{
  IsPositive, ℕ, ◌+◌, ◌<◌, ◌≡◌, refl, ◌^◌, List, [], ◌∷◌, Text, ℤ, length, arith,
}
use simpwire.ISocket.{ISocket}
use simpwire.Store.{Store}
use simpwire.TcpNodePrivate.State.{State, new_node}
use simpwire.TcpNodePrivate.Monad.{Action, ◌>>=◌}
use simpwire.TcpNodePrivate.Contracts.{Ends, Ends-bind, Ends-again}
use simpwire.TcpNodePrivate.Invariant.{Inv}
use simpwire.TcpNodePrivate.Sections.{Sect-Inv, Inv-Sect}
use simpwire.TcpNode.{Step, run}
use simpwire.TcpNode.Safety.{run-Inv, new_node-Inv}
use simpwire.Demo.Console.{Line}
use simpwire.Demo.Commands.{handle, is_exit}
use simpwire.TcpNodePrivate.Settings.{
  on_listen_error, on_send_error, on_connect_error, on_faulty_connection_closed, on_accept,
  on_receive, on_disconnect, on_closed_connection, on_connect, on_started_listening,
  on_stopped_listening,
}
use simpwire.Common.{any}
use simpwire.Demo.Callbacks.{set_callbacks}
use simpwire.Demo.Loop.{Input, getline, words, main_loop, session}
use simpwire.Demo.Safety.{Keeps, then-Keeps, callback-Keeps, handle-Inv}

new_node-counter :
    {I : ISocket} (create : I.World → I.Sock × I.World) (counter : ℕ) (m : Store I)
    → (new_node create any counter m).connection_counter ≡ counter
unfolding new_node
new_node-counter create counter m = refl

-- The steps of the threads in a schedule.
abbrev pub total : List (List Step) → ℕ
total [] = 0
total (xs ∷ schedule) = length xs + total schedule

module _ {I : ISocket} (sleep_for : ℤ → I.World → ℤ × I.World)
    (ticks : (ms : ℤ) (w : I.World) → IsPositive (sleep_for ms w).0) where
  -- Before a command the threads run, and after it comes what follows.
  pub Ends-turn :
      {A : Type 0} {P : A → State I → Type 0} (xs : List Step) (schedule : List (List Step))
      (ts : List Text) (k : List Line → Action I A) (s : State I)
      → Inv s
      → s.connection_counter + (length xs + total schedule) < 2 ^ 64
      → ((ls : List Line) (t : State I)
          → Inv t
          → t.connection_counter + total schedule < 2 ^ 64
          → Ends P (k ls t))
      → Ends P ((run sleep_for xs >>= λ _. (handle ts >>= k)) s)
  Ends-turn xs schedule ts k s h fits next =
      Ends-bind _ (run-Inv sleep_for ticks xs s h (omega arith)) λ _ t (ht, c).
        Ends-bind _ (handle-Inv ts t ht) λ ls u (hu, d). next ls u hu (omega (arith, fits, c, d))

  main_loop-Inv :
      (schedule : List (List Step)) (i : Input) (s : State I)
      → Inv s
      → s.connection_counter + total schedule < 2 ^ 64
      → Ends (λ _ t. Inv t) (main_loop sleep_for schedule i s)
  unfolding main_loop
  main_loop-Inv [] i s h fits = record { holds = h }
  main_loop-Inv (xs ∷ schedule) i s h fits =
      Ends-turn xs schedule (words (getline i)) _ s h fits λ ls t ht room.
        Ends-again (is_exit (words (getline i))) _ _ t (λ _. record { holds = ht })
          λ _.
            Ends-bind _ (main_loop-Inv schedule (getline i) t ht room)
              λ r u hu. record { holds = hu }

  set_callbacks-Keeps : Keeps {I = I} set_callbacks
  unfolding set_callbacks on_listen_error on_send_error on_connect_error on_faulty_connection_closed
      on_accept on_receive on_disconnect on_closed_connection on_connect on_started_listening
      on_stopped_listening
  set_callbacks-Keeps = then-Keeps (callback-Keeps _) (
      then-Keeps (callback-Keeps _) (
        then-Keeps (callback-Keeps _) (
          then-Keeps (callback-Keeps _) (
            then-Keeps (callback-Keeps _) (
              then-Keeps (callback-Keeps _) (
                then-Keeps (callback-Keeps _) (
                  then-Keeps (callback-Keeps _) (
                    then-Keeps (callback-Keeps _)
                      (then-Keeps (callback-Keeps _) (callback-Keeps _))))))))))

  -- From a new node, for any text on the standard input and any steps of the threads between the
  -- turns of the main loop, fewer than what the counter of connections has left of its 64 bits,
  -- and if every sleep takes time: the program ends its given turns without a fault, and the node
  -- has its invariant.
  pub session-Inv :
      (create : I.World → I.Sock × I.World) (counter : ℕ) (m : Store I) (progname text : Text)
      (schedule : List (List Step))
      → counter + total schedule < 2 ^ 64
      → Ends
          (λ _ t. Inv t)
          (session sleep_for progname text schedule (new_node create any counter m))
  unfolding session
  session-Inv create counter m progname text schedule fits =
      let s : State I = new_node create any counter m in
      Ends-bind _
        (set_callbacks-Keeps.kept s.connection_counter s.listener s
          (Sect-Inv (new_node-Inv create any counter m)))
        λ _ t ht.
          Ends-bind _
            (main_loop-Inv schedule _ t (Inv-Sect ht)
              (omega (arith, ht.counted, new_node-counter create counter m)))
            λ r u hu. record { holds = hu }
