-- ===== src/Socket/Descriptors.antt =====
-- src/Socket.cpp: which file descriptors are open, and which of them a socket holds.
use simpwire.Prelude.{
  ℕ, Bool, true, false, ◌&&◌, ◌||◌, not, ◌≡◌, refl, ◌∙◌, Option, none, some, List, Text, ◌==◌,
  if◌then◌else◌, arith,
}
use simpwire.ISocket.{Bytes}
use simpwire.Socket.Os.{Os, Fd, Hints}
use simpwire.Socket.State.{
  Socket, M, pure, ◌>>=◌, ◌>>◌, gets, modify, asks, sys, sys_, set_errno, clear_errno, close,
}
pub mod Calls
pub mod Servers
pub mod Balance
pub mod Table
mod Tests

-- What POSIX says of file descriptors: `socket` and `accept` return one that was not open and open
-- it, `close` closes what it is given, and the other calls open and close none.
pub record Descriptors (os : Os) : Type 0 where
  pub opened : os.World → ℕ → Bool
  pub close_nothing : (w : os.World) (n : ℕ) → opened (os.close none w) n ≡ opened w n
  pub close_one :
      (m : ℕ) (w : os.World) (n : ℕ) → opened (os.close (some m) w) n ≡ (opened w n && not (n == m))
  pub socket_nothing :
      (a : os.Address) (w : os.World)
      → (os.socket a w).0 ≡ none
      → (n : ℕ) → opened (os.socket a w).1 n ≡ opened w n
  pub socket_one :
      (a : os.Address) (w : os.World) (m : ℕ)
      → (os.socket a w).0 ≡ some m
      → (opened w m ≡ false) × ((n : ℕ) → opened (os.socket a w).1 n ≡ (opened w n || (n == m)))
  pub accept_nothing :
      (fd : Fd) (w : os.World)
      → (os.accept fd w).0 ≡ none
      → (n : ℕ) → opened (os.accept fd w).1 n ≡ opened w n
  pub accept_one :
      (fd : Fd) (w : os.World) (m : ℕ)
      → (os.accept fd w).0 ≡ some m
      → (opened w m ≡ false) × ((n : ℕ) → opened (os.accept fd w).1 n ≡ (opened w n || (n == m)))
  pub get_flags : (fd : Fd) (w : os.World) (n : ℕ) → opened (os.get_flags fd w).1 n ≡ opened w n
  pub set_flags :
      (fd : Fd) (flags : ℕ) (w : os.World) (n : ℕ)
      → opened (os.set_flags fd flags w).1 n ≡ opened w n
  pub getaddrinfo :
      (node : Option Text) (service : Text) (hints : Hints) (w : os.World) (n : ℕ)
      → opened (os.getaddrinfo node service hints w).1 n ≡ opened w n
  pub freeaddrinfo :
      (addresses : List os.Address) (w : os.World) (n : ℕ)
      → opened (os.freeaddrinfo addresses w) n ≡ opened w n
  pub set_reuse_address :
      (fd : Fd) (w : os.World) (n : ℕ) → opened (os.set_reuse_address fd w).1 n ≡ opened w n
  pub bind :
      (fd : Fd) (a : os.Address) (w : os.World) (n : ℕ) → opened (os.bind fd a w).1 n ≡ opened w n
  pub listen :
      (fd : Fd) (backlog : ℕ) (w : os.World) (n : ℕ)
      → opened (os.listen fd backlog w).1 n ≡ opened w n
  pub connect :
      (fd : Fd) (a : os.Address) (w : os.World) (n : ℕ)
      → opened (os.connect fd a w).1 n ≡ opened w n
  pub get_so_error :
      (fd : Fd) (w : os.World) (n : ℕ) → opened (os.get_so_error fd w).1 n ≡ opened w n
  pub recv :
      (fd : Fd) (size : ℕ) (w : os.World) (n : ℕ) → opened (os.recv fd size w).1 n ≡ opened w n
  pub send :
      (fd : Fd) (bytes : Bytes) (w : os.World) (n : ℕ)
      → opened (os.send fd bytes w).1 n ≡ opened w n
  pub sleep_for : (ms : ℕ) (w : os.World) (n : ℕ) → opened (os.sleep_for ms w) n ≡ opened w n

abbrev pub is_fd : Fd → ℕ → Bool
is_fd none n = false
is_fd (some m) n = n == m

module _ (os : Os) (d : Descriptors os) where
  -- The socket's descriptor is open.
  abbrev pub Held : Fd → os.World → Type 0
  Held none w = Unit {0}
  Held (some m) w = d.opened w m ≡ true

  -- The open descriptors but for the socket's own.
  abbrev pub others : Fd → os.World → ℕ → Bool
  others fd w n = d.opened w n && not (is_fd fd n)

  -- From one state of a socket to another: its descriptor is open, and those of others are as before.
  pub record Accounts (fd : Fd) (w : os.World) (fd' : Fd) (w' : os.World) : Type 0 where
    pub held : Held fd' w'
    pub same : (n : ℕ) → others fd' w' n ≡ others fd w n

  pub Accounts-trans :
      {a b c : Fd} {u v w : os.World} → Accounts a u b v → Accounts b v c w → Accounts a u c w
  Accounts-trans f g = record { held = g.held; same = λ n. g.same n ∙ f.same n }

  -- A piece of code that neither opens nor closes anything.
  pub record Quiet {A : Type 0} (m : M os.World A) : Type 0 where
    pub fd : (s : Socket) (w : os.World) → (m s w).1.socket_fd ≡ s.socket_fd
    pub opened : (s : Socket) (w : os.World) (n : ℕ) → d.opened (m s w).2 n ≡ d.opened w n

  pub Quiet-bind :
      {A B : Type 0} (m : M os.World A) (f : A → M os.World B)
      → Quiet m
      → ((a : A) → Quiet (f a))
      → Quiet (m >>= f)
  Quiet-bind m f h k = record {
    fd = λ s w. let (a, s', w') = m s w in (k a).fd s' w' ∙ h.fd s w;
    opened = λ s w n. let (a, s', w') = m s w in (k a).opened s' w' n ∙ h.opened s w n;
  }

  pub Quiet-pure : {A : Type 0} (a : A) → Quiet (pure a)
  Quiet-pure a = record { fd = λ s w. refl; opened = λ s w n. refl }

  pub Quiet-gets : {A : Type 0} (f : Socket → A) → Quiet (gets f)
  Quiet-gets f = record { fd = λ s w. refl; opened = λ s w n. refl }

  pub Quiet-asks : {A : Type 0} (f : os.World → A) → Quiet (asks f)
  Quiet-asks f = record { fd = λ s w. refl; opened = λ s w n. refl }

  pub Quiet-modify :
      (f : Socket → Socket) → ((s : Socket) → (f s).socket_fd ≡ s.socket_fd) → Quiet (modify f)
  Quiet-modify f h = record { fd = λ s w. h s; opened = λ s w n. refl }

  pub Quiet-sys :
      {A : Type 0} (f : os.World → A × os.World)
      → ((w : os.World) (n : ℕ) → d.opened (f w).1 n ≡ d.opened w n)
      → Quiet (sys f)
  Quiet-sys f h = record { fd = λ s w. refl; opened = λ s w n. h w n }

  pub Quiet-sys_ :
      (f : os.World → os.World)
      → ((w : os.World) (n : ℕ) → d.opened (f w) n ≡ d.opened w n)
      → Quiet (sys_ f)
  Quiet-sys_ f h = record { fd = λ s w. refl; opened = λ s w n. h w n }

  pub Quiet-if :
      {A : Type 0} (b : Bool) (m k : M os.World A) → Quiet m → Quiet k → Quiet (if b then m else k)
  Quiet-if true m k hm hk = hm
  Quiet-if false m k hm hk = hk

  pub Quiet-set_errno : Quiet (set_errno os)
  unfolding set_errno
  Quiet-set_errno = record { fd = λ s w. refl; opened = λ s w n. refl }

  pub Quiet-clear_errno : Quiet clear_errno
  unfolding clear_errno
  Quiet-clear_errno = record { fd = λ s w. refl; opened = λ s w n. refl }

  pub Accounts-same :
      (fd fd' : Fd) (w w' : os.World)
      → Held fd w
      → fd' ≡ fd
      → ((n : ℕ) → d.opened w' n ≡ d.opened w n)
      → Accounts fd w fd' w'
  Accounts-same none fd' w w' h e k = rw e (record { held = tt; same = λ n. rw (k n) refl })
  Accounts-same (some m) fd' w w' h e k =
      rw e (record { held = k m ∙ h; same = λ n. rw (k n) refl })

  pub Accounts-Quiet :
      {A : Type 0} (m : M os.World A) (s : Socket) (w : os.World)
      → Quiet m
      → Held s.socket_fd w
      → Accounts s.socket_fd w (m s w).1.socket_fd (m s w).2
  Accounts-Quiet m s w q h = Accounts-same s.socket_fd _ w _ h (q.fd s w) (q.opened s w)

  pub Accounts-if :
      {A : Type 0} {fd : Fd} {u : os.World} (b : Bool) (m k : M os.World A) (s : Socket)
      (w : os.World)
      → (b ≡ true → Accounts fd u (m s w).1.socket_fd (m s w).2)
      → (b ≡ false → Accounts fd u (k s w).1.socket_fd (k s w).2)
      → Accounts fd u ((if b then m else k) s w).1.socket_fd ((if b then m else k) s w).2
  Accounts-if true m k s w hm hk = hm refl
  Accounts-if false m k s w hm hk = hk refl

  pub close-others :
      (fd : Fd) (w : os.World) (n : ℕ) → others none (os.close fd w) n ≡ others fd w n
  close-others none w n = rw (d.close_nothing w n) refl
  close-others (some m) w n = ground (arith, d.close_one m w n)

  pub close-Accounts :
      (s : Socket) (w : os.World)
      → Accounts s.socket_fd w (close os s w).1.socket_fd (close os s w).2
  unfolding close
  close-Accounts s w = record { held = tt; same = close-others s.socket_fd w }

pub ruleset quiet = (
  Quiet-bind, Quiet-pure, Quiet-gets, Quiet-asks, Quiet-modify, Quiet-sys, Quiet-sys_, Quiet-if,
  Quiet-set_errno, Quiet-clear_errno,
)
