-- ===== src/Demo/Callbacks.antt =====
-- src/demo/demo.cpp, main: the functions that it gives the node, and what they print.
use simpwire.Prelude.{
  ℕ, Bool, false, ◌||◌, some, List, [], ◌∷◌, ◌++◌, codes, to_string, length, ◌==◌, if◌then◌else◌,
}
use simpwire.ISocket.{ISocket, Bytes}
use simpwire.Peer.{Peer}
use simpwire.TcpNodePrivate.State.{Arguments}
use simpwire.TcpNodePrivate.Monad.{Action, ◌>>◌}
use simpwire.TcpNodePrivate.Settings.{
  on_listen_error, on_send_error, on_connect_error, on_faulty_connection_closed, on_accept,
  on_receive, on_disconnect, on_closed_connection, on_connect, on_started_listening,
  on_stopped_listening,
}
use simpwire.Demo.Console.{Line, out, report_error, address, numbered_address}
use simpwire.Demo.Tokens.{c_string}

-- The names of the functions: reportError and the lambdas.
abbrev pub error_reported : ℕ
error_reported = 0

abbrev pub faulty_closed : ℕ
faulty_closed = 1

abbrev pub accepted : ℕ
accepted = 2

abbrev pub received : ℕ
received = 3

abbrev pub disconnected : ℕ
disconnected = 4

abbrev pub closed : ℕ
closed = 5

abbrev pub connected : ℕ
connected = 6

abbrev pub started : ℕ
started = 7

abbrev pub stopped : ℕ
stopped = 8

unfoldable pub set_callbacks : {I : ISocket} → Action I (Unit {0})
set_callbacks = do
  on_listen_error (some error_reported)
  on_send_error (some error_reported)
  on_connect_error (some error_reported)
  on_faulty_connection_closed (some faulty_closed)
  on_accept (some accepted)
  on_receive (some received)
  on_disconnect (some disconnected)
  on_closed_connection (some closed)
  on_connect (some connected)
  on_started_listening (some started)
  on_stopped_listening (some stopped)

unfoldable pub contains : ℕ → Bytes → Bool
contains c [] = false
contains c (x ∷ xs) = x == c || contains c xs

-- std::find from the back, and the erasure of what it finds.
unfoldable pub erase_last : ℕ → Bytes → Bytes
erase_last c [] = []
erase_last c (x ∷ xs) =
    let rest = erase_last c xs in if contains c xs then x ∷ rest else if x == c then xs else x ∷ xs

-- std::strlen of a buffer that has no NUL of its own: `beyond` is what the memory holds behind it.
unfoldable pub strlen : Bytes → Bytes → ℕ
strlen buffer beyond = length (c_string (buffer ++ beyond))

-- The receive callback; 10 is the newline.
unfoldable pub print_received : Bytes → Peer → Bytes → Line
print_received beyond pr dat =
    let copy_data = erase_last 10 dat in
    out (
      codes "> Received "
      ++ (to_string (strlen copy_data beyond)
          ++ (codes " bytes from: " ++ (numbered_address pr ++ (codes ": " ++ copy_data)))))

unfoldable pub print_peer : ℕ → Peer → List Line
print_peer f pr =
    if f == accepted
    then out (codes "> " ++ (numbered_address pr ++ codes " has connected.")) ∷ []
    else if f == disconnected
    then out (codes "> " ++ (numbered_address pr ++ codes " has disconnected.")) ∷ []
    else if f == closed
    then out (codes "> Closed connection to " ++ numbered_address pr) ∷ []
    else if f == connected
    then out (codes "> Connected to " ++ numbered_address pr) ∷ []
    else []

-- What the call of a function prints. No function is set for sent data.
unfoldable pub print_call : Bytes → ℕ → Arguments → List Line
print_call beyond f Arguments.nothing = out (codes "> Stopped listening.") ∷ []
print_call beyond f (Arguments.of_port p) =
    out (codes "> Started listening on port " ++ (to_string p ++ codes ".")) ∷ []
print_call beyond f (Arguments.of_peer p) = print_peer f (some p)
print_call beyond f (Arguments.of_bytes p dat) = print_received beyond (some p) dat ∷ []
print_call beyond f (Arguments.of_amount p n) = []
print_call beyond f (Arguments.of_message msg) = report_error msg
print_call beyond f (Arguments.of_faulty p msg) =
    out (
      codes "Closed connection to "
      ++ (address (some p) ++ (codes " due to error: " ++ (msg.head ++ (codes ": " ++ msg.body)))))
    ∷ []
