-- ===== src/Socket/State.antt =====
-- src/Socket.hpp and src/Socket.cpp: the members of a socket, its getters and setters, and closing.
use simpwire.Prelude.{ℕ, Bool, false, none, [], Text, ◌==◌, if◌then◌else◌}
use simpwire.ISocket.{Method}
use simpwire.Socket.Os.{Os, Fd}

pub record Socket : Type 0 where
  pub socket_fd : Fd
  pub listener : Bool
  pub connected : Bool
  pub listening : Bool
  pub listen_port : ℕ
  pub receive_buffer_size : ℕ
  pub sleep_time : ℕ
  pub last_errno : ℕ

abbrev pub spw_def_sleeptime_ms : ℕ
spw_def_sleeptime_ms = 10

abbrev pub spw_def_recbuf_size : ℕ
spw_def_recbuf_size = 1024

-- Socket::Socket
unfoldable pub new_socket : Socket
new_socket = record {
  socket_fd = none;
  listener = false;
  connected = false;
  listening = false;
  listen_port = 0;
  receive_buffer_size = spw_def_recbuf_size;
  sleep_time = spw_def_sleeptime_ms;
  last_errno = 0;
}

-- A method, over any world.
abbrev pub M : Type 0 → Type 0 → Type 0
M W A = Method Socket W A

module _ {W : Type 0} where
  abbrev pub pure : {A : Type 0} → A → M W A
  pure a s w = (a, s, w)

  infixl 5 ◌>>=◌ ◌>>◌
  abbrev pub ◌>>=◌ : {A B : Type 0} → M W A → (A → M W B) → M W B
  ◌>>=◌ m f s w = let (a, s', w') = m s w in f a s' w'

  abbrev pub ◌>>◌ : {A B : Type 0} → M W A → M W B → M W B
  m >> k = m >>= λ _. k

  abbrev pub gets : {A : Type 0} → (Socket → A) → M W A
  gets f s w = (f s, s, w)

  abbrev pub modify : (Socket → Socket) → M W (Unit {0})
  modify f s w = (tt, f s, w)

  -- A call of the operating system, with and without a result, and errno.
  abbrev pub sys : {A : Type 0} → (W → A × W) → M W A
  sys f s w = let (a, w') = f w in (a, s, w')

  abbrev pub sys_ : (W → W) → M W (Unit {0})
  sys_ f s w = (tt, s, f w)

  abbrev pub asks : {A : Type 0} → (W → A) → M W A
  asks f s w = (f w, s, w)

  -- Socket::clearErrno
  unfoldable pub clear_errno : M W (Unit {0})
  clear_errno s w = (tt, record s { last_errno = 0 }, w)

  -- Socket::getLastErrno: reading the number clears it.
  unfoldable pub get_last_errno : M W ℕ
  get_last_errno = do
    temp ← gets λ s. s.last_errno
    modify λ s. record s { last_errno = 0 }
    pure temp

  unfoldable pub set_receive_buffer_size : ℕ → M W (Unit {0})
  set_receive_buffer_size n = modify λ s. record s { receive_buffer_size = n }

  unfoldable pub set_sleep_time : ℕ → M W (Unit {0})
  set_sleep_time ms = modify λ s. record s { sleep_time = ms }

module _ (os : Os) where
  -- Socket::setErrno
  unfoldable pub set_errno : M os.World (Unit {0})
  set_errno s w = (tt, record s { last_errno = os.errno w }, w)

  -- Socket::close
  unfoldable pub close : M os.World (Unit {0})
  close = do
    modify λ s. record s { connected = false; listening = false; listener = false }
    fd ← gets λ s. s.socket_fd
    sys_ (os.close fd)
    modify λ s. record s { socket_fd = none }

  -- Socket::~Socket
  unfoldable pub destroy : Socket → os.World → os.World
  unfolding close
  destroy s w = (close s w).2

  -- Socket::getLastErrnoString
  unfoldable pub get_last_errno_string : M os.World Text
  unfolding get_last_errno
  get_last_errno_string = do
    lasterrno ← get_last_errno
    pure (if lasterrno == 0 then [] else os.strerror lasterrno)
