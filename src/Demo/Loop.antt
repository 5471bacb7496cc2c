-- ===== src/Demo/Loop.antt =====
-- src/demo/demo.cpp, main: the program's name, the input and the main loop.
use simpwire.Prelude.{
  Bool, true, false, Option, none, some, ℤ, List, [], ◌∷◌, ◌++◌, Text, codes, ◌==◌, if◌then◌else◌,
}
use simpwire.ISocket.{ISocket}
use simpwire.TcpNodePrivate.Monad.{Action, pure, ◌>>=◌, ◌>>◌}
use simpwire.TcpNode.{Step, run}
use simpwire.Demo.Tokens.{tokenize}
use simpwire.Demo.Console.{Line, out, list_commands}
use simpwire.Demo.Callbacks.{set_callbacks}
use simpwire.Demo.Commands.{handle, is_exit}

-- tokens.back(), which is not defined where there is no token.
unfoldable pub back : List Text → Option Text
back [] = none
back (t ∷ []) = some t
back (t ∷ u ∷ ts) = back (u ∷ ts)

-- The name of the program, from argv[0].
unfoldable pub program_name : Text → Option Text
program_name path = back (tokenize path (codes "/"))

unfoldable pub welcome : Text → List Line
welcome progname = out (codes "> ### Welcome to " ++ (progname ++ codes " ###")) ∷ list_commands

-- std::cin, and the string that std::getline writes to.
pub record Input : Type 0 where
  pub rest : Text
  pub at_end : Bool  -- the stream has met its end
  pub command : Text

-- A line up to its newline, and what follows it, or none at the end of the text.
unfoldable pub read_line : Text → Text × Option Text
read_line [] = ([], none)
read_line (c ∷ s) =
    let (line, more) = read_line s in if c == 10 then ([], some s) else (c ∷ line, more)

unfoldable pub line_read : Text × Option Text → Input
line_read (line, none) = record { rest = []; at_end = true; command = line }
line_read (line, some more) = record { rest = more; at_end = false; command = line }

-- std::getline. Behind the end of the stream it leaves the string as it was.
unfoldable pub getline : Input → Input
getline i = if i.at_end then i else line_read (read_line i.rest)

abbrev pub words : Input → List Text
words i = tokenize i.command (codes " ")

module _ {I : ISocket} (sleep_for : ℤ → I.World → ℤ × I.World) where
  -- The turns of the main loop, with the steps that the threads make before each of them. The
  -- result is what the loop prints and whether it has ended.
  unfoldable pub main_loop : List (List Step) → Input → Action I (List Line × Bool)
  main_loop [] i = pure ([], false)
  main_loop (xs ∷ schedule) i =
      let next = getline i in
      let later = main_loop schedule next in
      do
        run sleep_for xs
        printed ← handle (words next)
        elim (is_exit (words next)) as (λ _. Action I (List Line × Bool)) [
          | true ↦ pure (printed, true)
          | false ↦ later >>= λ r. pure (printed ++ r.0, r.1)
        ]

  -- `main` from the new node on, up to the destructor's own work.
  unfoldable pub session : Text → Text → List (List Step) → Action I (List Line × Bool)
  session progname text schedule = do
    set_callbacks
    r ← main_loop schedule (record { rest = text; at_end = false; command = [] })
    pure (
      welcome progname ++ (r.0 ++ (if r.1 then out (codes "> Destroying TcpNode...") ∷ [] else [])),
      r.1,
    )
