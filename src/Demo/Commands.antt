-- ===== src/Demo/Commands.antt =====
-- src/demo/demo.cpp, main: one command. Its result is what it prints and whether to go on.
use simpwire.Prelude.{
  ℕ, Bool, true, false, some, ℤ, List, [], ◌∷◌, ◌++◌, map, Text, codes, to_string, text_eq,
  if◌then◌else◌,
}
use simpwire.Common.{any, ipv4, ipv6, version}
use simpwire.ISocket.{ISocket}
use simpwire.Peer.{Peer}
use simpwire.PeerPrivate.{PeerPrivate}
use simpwire.TcpNodePrivate.State.{PeerList}
use simpwire.TcpNodePrivate.Monad.{Action, pure, ◌>>=◌, ◌>>◌}
use simpwire.TcpNode.{Call, perform}
use simpwire.TcpNodePrivate.Settings
use simpwire.TcpNodePrivate.Requests
use simpwire.Demo.Numbers.{value, invalid_argument, out_of_range, stoi, to_unsigned}
use simpwire.Demo.Console.{
  Line, out, err, version_word, connect_word, send_word, listen_word, is_listening_word,
  show_listen_port_word, set_receive_buffer_size_word, show_receive_buffer_size_word,
  show_latest_peer_word, stop_listening_word, disconnect_word, disconnect_all_word, show_peers_word,
  exit_word, list_commands_word, ipv4_word, ipv6_word, list_commands, peer_at, numbered_address,
}

-- A line of a peer in the list of them.
unfoldable pub peer_line : ℕ × PeerPrivate → Line
peer_line (k, p) = out (codes "> " ++ numbered_address (some p))

unfoldable pub peer_lines : PeerList → List Line
peer_lines ps =
    if Requests.is_empty ps then out (codes "> No peers available.") ∷ [] else map peer_line ps

-- The words of a message with a space behind each.
unfoldable pub spaced : List Text → Text
spaced [] = []
spaced (t ∷ ts) = t ++ (32 ∷ spaced ts)

-- substr(0, size() - 1)
unfoldable pub drop_last : Text → Text
drop_last [] = []
drop_last (c ∷ []) = []
drop_last (c ∷ d ∷ s) = c ∷ drop_last (d ∷ s)

-- The branches of the chain of tests on the first word.
pub data Word : Type 0 where
  show_version connect send listen listening listen_port set_buffer_size buffer_size latest : Word
  stop_listening disconnect disconnect_all exit peers commands invalid : Word

unfoldable pub word : Text → Word
word c =
    if text_eq c version_word
    then show_version
    else if text_eq c connect_word
    then connect
    else if text_eq c send_word
    then send
    else if text_eq c listen_word
    then listen
    else if text_eq c is_listening_word
    then listening
    else if text_eq c show_listen_port_word
    then listen_port
    else if text_eq c set_receive_buffer_size_word
    then set_buffer_size
    else if text_eq c show_receive_buffer_size_word
    then buffer_size
    else if text_eq c show_latest_peer_word
    then latest
    else if text_eq c stop_listening_word
    then stop_listening
    else if text_eq c disconnect_word
    then disconnect
    else if text_eq c disconnect_all_word
    then disconnect_all
    else if text_eq c exit_word
    then exit
    else if text_eq c show_peers_word
    then peers
    else if text_eq c list_commands_word
    then commands
    else invalid

module _ {I : ISocket} where
  abbrev pub says : List Line → Action I (List Line)
  says = pure

  abbrev pub silent : Call → Action I (List Line)
  silent c = do perform c; says []

  -- The two handlers that catch what std::stoi throws.
  unfoldable pub with_number : Text → (ℤ → Action I (List Line)) → Action I (List Line)
  with_number s f = elim (stoi s) [
    | value z ↦ f z
    | invalid_argument ↦ says (err (codes "> Specified id could not be parsed.") ∷ [])
    | out_of_range ↦ says (err (codes "> Specified id is to large.") ∷ [])
  ]

  unfoldable pub do_connect : List Text → Action I (List Line)
  do_connect (ip ∷ p ∷ more) = with_number p λ z. silent (Call.connect_to ip (to_unsigned 16 z))
  do_connect short =
      says (err (codes "> Error: " ++ (connect_word ++ codes " needs ip and port.")) ∷ [])

  -- The peer of that id, from a copy of the map.
  unfoldable pub with_peer : ℤ → (Peer → Call) → Action I (List Line)
  with_peer z c = do ps ← Settings.all_peers; silent (c (peer_at (to_unsigned 64 z) ps))

  unfoldable pub do_send : List Text → Action I (List Line)
  do_send (k ∷ t ∷ ts) =
      with_number k λ z. with_peer z λ pr. Call.send_data pr (drop_last (spaced (t ∷ ts)))
  do_send short = says (err (codes "Error: " ++ (send_word ++ codes " needs id and data.")) ∷ [])

  unfoldable pub do_listen_version : ℕ → Text → Action I (List Line)
  do_listen_version requested_port t =
      if text_eq t ipv4_word
      then silent (Call.do_listen requested_port ipv4)
      else if text_eq t ipv6_word
      then silent (Call.do_listen requested_port ipv6)
      else says (err (codes "> Specified IP version could not be parsed.") ∷ [])

  unfoldable pub do_listen : List Text → Action I (List Line)
  do_listen [] = says (err (codes "> Port must be specified.") ∷ [])
  do_listen (p ∷ []) = with_number p λ z. silent (Call.do_listen (to_unsigned 16 z) any)
  do_listen (p ∷ t ∷ more) = with_number p λ z. do_listen_version (to_unsigned 16 z) t

  unfoldable pub show_listening : Action I (List Line)
  show_listening = do
    enabled ← Settings.is_listening
    says (
        out (if enabled then codes "> Listening for connections." else codes "> Not listening.")
        ∷ [])

  unfoldable pub show_listen_port : Action I (List Line)
  show_listen_port = do p ← Settings.listen_port; says (out (codes "> " ++ to_string p) ∷ [])

  unfoldable pub set_size : List Text → Action I (List Line)
  set_size [] = says (err (codes "> Size needs to be specified.") ∷ [])
  set_size (n ∷ more) = with_number n λ z. silent (Call.set_receive_buffer_size (to_unsigned 64 z))

  unfoldable pub show_size : Action I (List Line)
  show_size = do
    n ← Settings.receive_buffer_size
    says (out (codes "> Receive buffer size: " ++ (to_string n ++ codes " bytes.")) ∷ [])

  unfoldable pub show_latest_peer : Action I (List Line)
  show_latest_peer = do
    pr ← Requests.latest_peer
    says (out (codes ">  " ++ numbered_address pr) ∷ [])

  -- Without an id nothing happens.
  unfoldable pub do_disconnect : List Text → Action I (List Line)
  do_disconnect [] = says []
  do_disconnect (k ∷ more) = with_number k λ z. with_peer z Call.disconnect_peer

  unfoldable pub show_peers : Action I (List Line)
  show_peers = do ps ← Settings.all_peers; says (peer_lines ps)

  unfoldable pub dispatch : Word → List Text → Action I (List Line)
  dispatch show_version ts = says (out (codes "Version: " ++ version) ∷ [])
  dispatch connect ts = do_connect ts
  dispatch send ts = do_send ts
  dispatch listen ts = do_listen ts
  dispatch listening ts = show_listening
  dispatch listen_port ts = show_listen_port
  dispatch set_buffer_size ts = set_size ts
  dispatch buffer_size ts = show_size
  dispatch latest ts = show_latest_peer
  dispatch stop_listening ts = silent Call.stop_listening
  dispatch disconnect ts = do_disconnect ts
  dispatch disconnect_all ts = silent Call.disconnect_all
  dispatch exit ts = says []
  dispatch peers ts = show_peers
  dispatch commands ts = says list_commands
  dispatch invalid ts = says (err (codes "> Error invalid command") ∷ [])

  unfoldable pub handle : List Text → Action I (List Line)
  handle [] = says (err (codes "> Error: Command empty.") ∷ [])
  handle (c ∷ ts) = dispatch (word c) ts

unfoldable pub sets_exit : Word → Bool
sets_exit exit = true
sets_exit other = false

-- Whether the command sets `exit_program`.
unfoldable pub is_exit : List Text → Bool
is_exit [] = false
is_exit (c ∷ ts) = sets_exit (word c)
