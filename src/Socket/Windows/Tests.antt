-- ===== src/Socket/Windows/Tests.antt =====
-- The methods on Windows, over a small system where no descriptor can be made non-blocking.
use simpwire.Prelude.{ℕ, false, not, ◌&&◌, ◌≡◌, refl, some, [], ◌∷◌, codes}
use simpwire.Common.{any}
use simpwire.Socket.State.{close, destroy}
use simpwire.Socket.Transfer.{send}
use simpwire.Socket.Descriptors.{is_fd, Accounts}
use simpwire.Socket.Descriptors.Servers.{Accepts}
use simpwire.Socket.Descriptors.Table.{is_open, table_os, table, some_open, third}
use simpwire.Socket.Windows.{WinOs, listen, connect, accept, receive}
use simpwire.Socket.Windows.Descriptors.{ControlKeeps}
use simpwire.Socket.Windows.Balance.{windows_methods-Accounts}

abbrev table_win : WinOs
table_win = record {
  os = table_os;
  ioctlsocket = λ fd w. (false, w);
  wsaewouldblock = 10035;
  wsaeinprogress = 10036;
  wsatry_again = 11002;
  wsaeisconn = 10056;
  format_message = λ n. codes "error";
}

control : ControlKeeps table_win table
control fd w n = refl

windows_methods-Accounts_example :
    Accounts table_os table
      (some 3)
      some_open
      (listen table_win 80 any third some_open).1.socket_fd
      (listen table_win 80 any third some_open).2
    × Accounts table_os table
        (some 3)
        some_open
        (connect table_win (codes "::1") 80 third some_open).1.socket_fd
        (connect table_win (codes "::1") 80 third some_open).2
    × Accounts table_os table
        (some 3)
        some_open
        (close table_os third some_open).1.socket_fd
        (close table_os third some_open).2
    × Accounts table_os table
        (some 3)
        some_open
        (receive table_win [] third some_open).1.socket_fd
        (receive table_win [] third some_open).2
    × Accounts table_os table
        (some 3)
        some_open
        (send table_os (7 ∷ []) third some_open).1.socket_fd
        (send table_os (7 ∷ []) third some_open).2
    × Accepts table_os table
        (some 3)
        some_open
        (accept table_win third some_open).0
        (accept table_win third some_open).1
        (accept table_win third some_open).2
    × ((n : ℕ)
        → is_open (destroy table_os third some_open) n
          ≡ (is_open some_open n && not (is_fd (some 3) n)))
windows_methods-Accounts_example =
    windows_methods-Accounts table_win table control third some_open 80 any (codes "::1") []
      (7 ∷ []) refl
