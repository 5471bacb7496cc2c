-- ===== src/Socket/Winsock/Tests.antt =====
-- Two sockets, of which one goes.
use simpwire.Prelude.{ℕ, true, ◌+◌, ◌-◌, ◌≡◌, refl, some, [], ◌∷◌, List, arith}
use simpwire.Socket.State.{Socket, new_socket}
use simpwire.Socket.Winsock.{Wsa, Life, begins, ends, lives, alive, lives-users}

abbrev counting : Wsa
counting = record {
  World = ℕ;
  closesocket = λ fd w. w;
  startup = λ w. (true, w + 1);
  cleanup = λ w. w - 1;
  users = λ w. w;
  users_closesocket = λ fd w. refl;
  users_startup = λ w. refl;
  users_cleanup = λ w. refl;
}

abbrev open_socket : Socket
open_socket = record new_socket { socket_fd = some 5; connected = true }

abbrev come_and_go : List (Life counting)
come_and_go = begins ∷ begins ∷ ends open_socket ∷ []

-- 7 others use the library.
lives-users_example :
    ((lives counting come_and_go (record { socket_counter = 0; world = 7 })).socket_counter ≡ 1)
    × ((lives counting come_and_go (record { socket_counter = 0; world = 7 })).world ≡ 8)
unfolding alive
lives-users_example = lives-users counting come_and_go 1 7 (λ w. refl) refl (omega arith)
