-- ===== src/Socket/Winsock.antt =====
-- src/Socket.hpp and src/Socket.cpp, as they are compiled on Windows: the constructor and the
-- destructor, which start the system's library with the first socket and end it with the last.
use simpwire.Prelude.{
  Bool, true, ℕ, zero, suc, ◌+◌, ◌-◌, ◌≤◌, ◌<◌, ◌%◌, ◌^◌, ◌≡◌, refl, Option, none, some, List, [],
  ◌∷◌, length, ◌==◌, if◌then◌else◌, arith,
}
use simpwire.Socket.Os.{Fd}
use simpwire.Socket.State.{Socket, new_socket}
mod Tests

-- The calls of the library: closesocket, and WSAStartup and WSACleanup. `startup` tells whether
-- WSAStartup succeeded. `users` is the count that the documentation of the latter two speaks of: only
-- a WSAStartup that succeeds adds to it.
pub record Wsa : Type 1 where
  pub World : Type 0
  pub closesocket : Fd → World → World
  pub startup : World → Bool × World
  pub cleanup : World → World
  pub users : World → ℕ
  pub users_closesocket : (fd : Fd) (w : World) → users (closesocket fd w) ≡ users w
  pub users_startup :
      (w : World) → users (startup w).1 ≡ (if (startup w).0 then users w + 1 else users w)
  pub users_cleanup : (w : World) → users (cleanup w) ≡ users w - 1

module _ (wsa : Wsa) where
  -- m_socket_counter, a uint64_t that all sockets share, and the world.
  pub record Shared : Type 0 where
    pub socket_counter : ℕ
    pub world : wsa.World

  -- Socket::winsockInit, which ignores whether WSAStartup succeeded, and Socket::winsockDeInit
  unfoldable pub winsock_init : Shared → Shared
  winsock_init h = record h { world = (wsa.startup h.world).1 }

  unfoldable pub winsock_de_init : Shared → Shared
  winsock_de_init h = record h { world = wsa.cleanup h.world }

  -- Socket::Socket
  unfoldable pub construct : Shared → Socket × Shared
  unfolding winsock_init new_socket
  construct h =
      let h' = if h.socket_counter == 0 then winsock_init h else h in
      (new_socket, record h' { socket_counter = (h'.socket_counter + 1) % 2 ^ 64 })

  -- Socket::~Socket, of which `close` closes the descriptor. The counter goes down by one.
  unfoldable pub destruct : Socket → Shared → Shared
  unfolding winsock_de_init
  destruct s h =
      let closed = record h { world = wsa.closesocket s.socket_fd h.world } in
      let h' = if closed.socket_counter == 1 then winsock_de_init closed else closed in
      record h' { socket_counter = (h'.socket_counter + (2 ^ 64 - 1)) % 2 ^ 64 }

  -- Sockets come into being, and go in whatever state they are.
  pub data Life : Type 0 where
    begins : Life
    ends : Socket → Life

  unfoldable pub lives : List Life → Shared → Shared
  lives [] h = h
  lives (begins ∷ xs) h = lives xs (construct h).1
  lives (ends s ∷ xs) h = lives xs (destruct s h)

  -- How many sockets there are at the end, if never more have gone than come.
  unfoldable pub alive : List Life → ℕ → Option ℕ
  alive [] n = some n
  alive (begins ∷ xs) n = alive xs (suc n)
  alive (ends s ∷ xs) zero = none
  alive (ends s ∷ xs) (suc n) = alive xs n

  abbrev pub one_if_any : ℕ → ℕ
  one_if_any zero = 0
  one_if_any (suc n) = 1

  -- With `n` sockets, from `base` other users.
  record Started (base n : ℕ) (h : Shared) : Type 0 where
    counter : h.socket_counter ≡ n
    users : wsa.users h.world ≡ base + one_if_any n

  -- That WSAStartup succeeds.
  abbrev pub Starts : Type 0
  Starts = (w : wsa.World) → (wsa.startup w).0 ≡ true

  construct-Started :
      (base n : ℕ) (h : Shared)
      → Starts
      → suc n < 2 ^ 64
      → Started base n h
      → Started base (suc n) (construct h).1
  unfolding construct winsock_init
  construct-Started base zero h starts fits st = record {
    counter = ground (arith, st.counter);
    users = ground (arith, st.counter, st.users, wsa.users_startup h.world, starts h.world);
  }
  construct-Started base (suc n) h starts fits st = record {
    counter = ground (arith, st.counter);
    users = ground (arith, st.counter, st.users);
  }

  destruct-Started :
      (base n : ℕ) (s : Socket) (h : Shared)
      → suc n < 2 ^ 64
      → Started base (suc n) h
      → Started base n (destruct s h)
  unfolding destruct winsock_de_init
  destruct-Started base zero s h fits st = record {
    counter = ground (arith, st.counter);
    users = ground (
      arith,
      st.counter,
      st.users,
      wsa.users_closesocket s.socket_fd h.world,
      wsa.users_cleanup (wsa.closesocket s.socket_fd h.world),
    );
  }
  destruct-Started base (suc n) s h fits st = record {
    counter = ground (arith, st.counter);
    users = ground (arith, st.counter, st.users, wsa.users_closesocket s.socket_fd h.world);
  }

  lives-Started :
      (xs : List Life) (base m n : ℕ) (h : Shared)
      → Starts
      → alive xs m ≡ some n
      → m + length xs < 2 ^ 64
      → Started base m h
      → Started base n (lives xs h)
  unfolding lives alive
  lives-Started [] base m n h starts e fits st = let all : m ≡ n = cc in rw (← all) st
  lives-Started (begins ∷ xs) base m n h starts e fits st =
      lives-Started xs base (suc m) n _ starts e (omega arith)
        (construct-Started base m h starts (omega arith) st)
  lives-Started (ends s ∷ xs) base zero n h starts e fits st = cc
  lives-Started (ends s ∷ xs) base (suc m) n h starts e fits st =
      lives-Started xs base m n _ starts e (omega arith)
        (destruct-Started base m s h (omega arith) st)

  -- If every WSAStartup succeeds: let sockets be constructed and destroyed in any order, from none on, with fewer than 2^64 steps,
  -- each socket destroyed at most once and after its construction. Afterwards the counter is the
  -- number of sockets, and of all these constructors and destructors the system's library counts
  -- one use if there is a socket, and none if there is none.
  pub lives-users :
      (xs : List Life) (n : ℕ) (w : wsa.World)
      → Starts
      → alive xs 0 ≡ some n
      → length xs < 2 ^ 64
      → ((lives xs (record { socket_counter = 0; world = w })).socket_counter ≡ n)
        × (wsa.users (lives xs (record { socket_counter = 0; world = w })).world
            ≡ wsa.users w + one_if_any n)
  lives-users xs n w starts e fits =
      let st =
        lives-Started xs (wsa.users w) 0 n (record { socket_counter = 0; world = w }) starts e
          (omega arith) (record { counter = refl; users = omega arith }) in
      (st.counter, st.users)
