-- ===== src/Demo/Console.antt =====
-- src/demo/demo.cpp: what the program prints, the words of its commands, and its helpers.
use simpwire.Prelude.{ℕ, none, some, List, [], ◌∷◌, ◌++◌, Text, codes, to_string}
use simpwire.Common.{Message}
use simpwire.PeerPrivate.{new_peer_private}
use simpwire.Peer.{Peer, id, ip_address, port}
use simpwire.TcpNodePrivate.State.{PeerList}
use simpwire.TcpNodePrivate.Map.{find}

-- A line on std::cout or on std::cerr.
pub data Line : Type 0 where
  out err : Text → Line

abbrev pub version_word : Text
version_word = codes "Version"

abbrev pub connect_word : Text
connect_word = codes "Connect"

abbrev pub send_word : Text
send_word = codes "Send"

abbrev pub listen_word : Text
listen_word = codes "Listen"

abbrev pub is_listening_word : Text
is_listening_word = codes "Is_listening"

abbrev pub show_listen_port_word : Text
show_listen_port_word = codes "Show_listen_port"

abbrev pub set_receive_buffer_size_word : Text
set_receive_buffer_size_word = codes "Set_receive_buffer_size"

abbrev pub show_receive_buffer_size_word : Text
show_receive_buffer_size_word = codes "Show_receive_buffer_size"

abbrev pub show_latest_peer_word : Text
show_latest_peer_word = codes "Show_latest_peer"

abbrev pub stop_listening_word : Text
stop_listening_word = codes "Stop_listening"

abbrev pub disconnect_word : Text
disconnect_word = codes "Disconnect"

abbrev pub disconnect_all_word : Text
disconnect_all_word = codes "Disconnect_all"

abbrev pub show_peers_word : Text
show_peers_word = codes "Show_peers"

abbrev pub exit_word : Text
exit_word = codes "Exit"

abbrev pub list_commands_word : Text
list_commands_word = codes "List_commands"

abbrev pub ipv4_word : Text
ipv4_word = codes "IPv4"

abbrev pub ipv6_word : Text
ipv6_word = codes "IPv6"

abbrev item : Text → Text → Line
item word arguments = out (codes "> - " ++ (word ++ arguments))

-- listCommands
unfoldable pub list_commands : List Line
list_commands =
    out (codes "> Available commands: ")
    ∷ item version_word []
    ∷ item connect_word (codes " <ip> <port> ")
    ∷ item send_word (codes " <id> <data> ")
    ∷ item listen_word (
        codes " <port> " ++ (codes " [" ++ (ipv4_word ++ (codes "|" ++ (ipv6_word ++ codes "] ")))))
    ∷ item is_listening_word []
    ∷ item show_listen_port_word []
    ∷ item set_receive_buffer_size_word (codes " <size> ")
    ∷ item show_receive_buffer_size_word []
    ∷ item show_latest_peer_word []
    ∷ item stop_listening_word []
    ∷ item disconnect_word (codes " <id> ")
    ∷ item disconnect_all_word []
    ∷ item show_peers_word []
    ∷ item list_commands_word []
    ∷ item exit_word []
    ∷ out []
    ∷ []

-- reportError
unfoldable pub report_error : Message → List Line
report_error msg = err (codes "> " ++ msg.head) ∷ err (codes "> " ++ msg.body) ∷ []

-- peerAt
unfoldable pub peer_at : ℕ → PeerList → Peer
peer_at k ps = elim (find k ps) [ none ↦ some new_peer_private | some p ↦ some p ]

-- The address of a peer and its port, as many lines have them.
abbrev pub address : Peer → Text
address pr = ip_address pr ++ (codes ":" ++ to_string (port pr))

abbrev pub numbered_address : Peer → Text
numbered_address pr = codes "(" ++ (to_string (id pr) ++ (codes ") " ++ address pr))
