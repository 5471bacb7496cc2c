-- ===== src/Socket/Descriptors/Table.antt =====
-- A small system that keeps a table of the open descriptors, and a socket with one of them.
use simpwire.Prelude.{
  ℕ, suc, Bool, true, false, ◌&&◌, ◌||◌, not, ◌≡◌, refl, none, some, [], ◌∷◌, codes, length, ◌==◌,
  ltb, arith,
}
use simpwire.Socket.Os.{Os, inet}
use simpwire.Socket.State.{Socket, new_socket}
use simpwire.Socket.Descriptors.{Descriptors}

-- The lowest number that was never given out, and which of those below are marked.
pub record Table : Type 0 where
  pub next : ℕ
  pub marked : ℕ → Bool

abbrev pub is_open : Table → ℕ → Bool
is_open t n = ltb n t.next && t.marked n

abbrev pub opened_next : Table → Table
opened_next t = record { next = suc t.next; marked = λ n. is_open t n || n == t.next }

abbrev pub table_os : Os
table_os = record {
  World = Table;
  Address = ℕ;
  SockAddress = ℕ;
  errno = λ w. 111;
  eagain = 11;
  ewouldblock = 11;
  einprogress = 115;
  o_nonblock = 2048;
  strerror = λ n. codes "refused";
  close = λ fd w. elim fd [
    | none ↦ w
    | some m ↦ record { next = w.next; marked = λ n. w.marked n && not (n == m) }
  ];
  get_flags = λ fd w. (some 2, w);
  set_flags = λ fd flags w. (true, w);
  getaddrinfo = λ node service hints w. (some (0 ∷ 1 ∷ []), w);
  freeaddrinfo = λ addresses w. w;
  socket = λ address w. (some w.next, opened_next w);
  set_reuse_address = λ fd w. (true, w);
  bind = λ fd address w. (address == 1, w);
  listen = λ fd backlog w. (true, w);
  accept = λ fd w. (some w.next, opened_next w);
  connect = λ fd address w. (false, w);
  get_so_error = λ fd w. (some 0, w);
  recv = λ fd size w. (none, w);
  send = λ fd bytes w. (some (length bytes), w);
  getpeername = λ fd size w. (some 0, w);
  sa_length = λ a. 16;
  sa_family = λ a. inet;
  ntop_inet = λ a. codes "127.0.0.1";
  ntop_inet6 = λ a. codes "::1";
  port_inet = λ a. 80;
  port_inet6 = λ a. 80;
  getnameinfo = λ a size w. (none, w);
  gethostname = λ size w. (some (codes "host"), w);
  sleep_for = λ ms w. w;
}

next_is_closed : (t : Table) → is_open t t.next ≡ false
next_is_closed t = ground arith

opened_next-is_open :
    (t : Table) (n : ℕ) → is_open (opened_next t) n ≡ (is_open t n || (n == t.next))
opened_next-is_open t n = ground arith

pub next_one :
    (t : Table) (m : ℕ)
    → some t.next ≡ some m
    → (is_open t m ≡ false) × ((n : ℕ) → is_open (opened_next t) n ≡ (is_open t n || (n == m)))
next_one t m e = let at_m : t.next ≡ m = cc in rw (← at_m) (next_is_closed t, opened_next-is_open t)

pub closed_one :
    (m : ℕ) (t : Table) (n : ℕ)
    → is_open (table_os.close (some m) t) n ≡ (is_open t n && not (n == m))
closed_one m t n = ground arith

pub not_refused : (t : Table) (n : ℕ) → some t.next ≡ none → is_open (opened_next t) n ≡ is_open t n
not_refused t n e = cc

abbrev pub table : Descriptors table_os
table = record {
  opened = is_open;
  close_nothing = λ w n. refl;
  close_one = closed_one;
  socket_nothing = λ a w e n. not_refused w n e;
  socket_one = λ a w m e. next_one w m e;
  accept_nothing = λ fd w e n. not_refused w n e;
  accept_one = λ fd w m e. next_one w m e;
  get_flags = λ fd w n. refl;
  set_flags = λ fd flags w n. refl;
  getaddrinfo = λ node service hints w n. refl;
  freeaddrinfo = λ addresses w n. refl;
  set_reuse_address = λ fd w n. refl;
  bind = λ fd a w n. refl;
  listen = λ fd backlog w n. refl;
  connect = λ fd a w n. refl;
  get_so_error = λ fd w n. refl;
  recv = λ fd size w n. refl;
  send = λ fd bytes w n. refl;
  sleep_for = λ ms w n. refl;
}

-- Descriptor 3 is the socket's, 1 is someone else's.
abbrev pub some_open : Table
some_open = record { next = 4; marked = λ n. n == 1 || n == 3 }

abbrev pub third : Socket
third = record new_socket { socket_fd = some 3; connected = true }
