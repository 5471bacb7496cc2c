-- ===== src/Socket/Descriptors/Tests.antt =====
-- The methods over a small system.
use simpwire.Prelude.{ℕ, true, ◌&&◌, not, ◌≡◌, refl, some, [], ◌∷◌, codes}
use simpwire.Common.{any}
use simpwire.Socket.State.{close, destroy}
use simpwire.Socket.Opening.{set_non_blocking, listen, connect, accept}
use simpwire.Socket.Transfer.{receive, send}
use simpwire.Socket.Descriptors.{is_fd, Accounts}
use simpwire.Socket.Descriptors.Servers.{Accepts}
use simpwire.Socket.Descriptors.Balance.{methods-Accounts}
use simpwire.Socket.Descriptors.Table.{Table, is_open, table_os, table, some_open, third}

unblocks :
    (m : ℕ) (w : Table) → table.opened w m ≡ true → (set_non_blocking table_os (some m) w).0 ≡ true
unfolding set_non_blocking
unblocks m w h = refl

methods-Accounts_example :
    Accounts table_os table
      (some 3)
      some_open
      (listen table_os 80 any third some_open).1.socket_fd
      (listen table_os 80 any third some_open).2
    × Accounts table_os table
        (some 3)
        some_open
        (connect table_os (codes "::1") 80 third some_open).1.socket_fd
        (connect table_os (codes "::1") 80 third some_open).2
    × Accounts table_os table
        (some 3)
        some_open
        (close table_os third some_open).1.socket_fd
        (close table_os third some_open).2
    × Accounts table_os table
        (some 3)
        some_open
        (receive table_os [] third some_open).1.socket_fd
        (receive table_os [] third some_open).2
    × Accounts table_os table
        (some 3)
        some_open
        (send table_os (7 ∷ []) third some_open).1.socket_fd
        (send table_os (7 ∷ []) third some_open).2
    × Accepts table_os table
        (some 3)
        some_open
        (accept table_os third some_open).0
        (accept table_os third some_open).1
        (accept table_os third some_open).2
    × ((n : ℕ)
        → is_open (destroy table_os third some_open) n
          ≡ (is_open some_open n && not (is_fd (some 3) n)))
methods-Accounts_example =
    methods-Accounts table_os table unblocks third some_open 80 any (codes "::1") [] (7 ∷ []) refl
