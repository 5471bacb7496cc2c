-- ===== src/Socket/Descriptors/Balance.antt =====
-- src/Socket.cpp: no method loses a file descriptor.
use simpwire.Prelude.{ℕ, true, not, ◌&&◌, some, arith, ◌≡◌, Text}
use simpwire.Common.{IpVersion}
use simpwire.ISocket.{Bytes}
use simpwire.Socket.Os.{Os}
use simpwire.Socket.State.{Socket, close, destroy}
use simpwire.Socket.Opening.{set_non_blocking, listen, connect, accept}
use simpwire.Socket.Transfer.{receive, send}
use simpwire.Socket.Descriptors.{
  Descriptors, Held, is_fd, Accounts, Accounts-Quiet, close-Accounts, close-others,
}
use simpwire.Socket.Descriptors.Calls.{connect-Accounts, receive-Accounts, send-Quiet}
use simpwire.Socket.Descriptors.Servers.{Accepts, accept-Accepts}
use simpwire.Socket.Descriptors.Servers.Listening.{listen-Accounts}

module _ (os : Os) (d : Descriptors os) where
  pub destroy-opened :
      (s : Socket) (w : os.World) (n : ℕ)
      → d.opened (destroy os s w) n ≡ (d.opened w n && not (is_fd s.socket_fd n))
  unfolding destroy close
  destroy-opened s w n = ground (arith, close-others os d s.socket_fd w n)

module _ (os : Os) (d : Descriptors os)
    (unblocks : (m : ℕ) (w : os.World)
      → d.opened w m ≡ true
      → (set_non_blocking os (some m) w).0 ≡ true) where
  -- If every descriptor that is open can be made non-blocking, then for a socket whose descriptor, if it has one,
  -- is open, whatever else the system answers: after each of `listen`, `connect`, `close`, `receive`
  -- and `send`, whether it succeeds or fails, the socket's descriptor, if it has one, is open, and
  -- the open descriptors that are not the socket's are the same as before. `accept` adds the
  -- descriptor of the socket that it returns, if any, and no other, and the listener keeps its own;
  -- and the destructor closes the socket's descriptor and no other.
  pub methods-Accounts :
      (s : Socket) (w : os.World) (port : ℕ) (ipv : IpVersion) (ip : Text) (old bytes : Bytes)
      → Held os d s.socket_fd w
      → Accounts os d s.socket_fd w (listen os port ipv s w).1.socket_fd (listen os port ipv s w).2
        × Accounts os d s.socket_fd w
            (connect os ip port s w).1.socket_fd
            (connect os ip port s w).2
        × Accounts os d s.socket_fd w (close os s w).1.socket_fd (close os s w).2
        × Accounts os d s.socket_fd w (receive os old s w).1.socket_fd (receive os old s w).2
        × Accounts os d s.socket_fd w (send os bytes s w).1.socket_fd (send os bytes s w).2
        × Accepts os d s.socket_fd w (accept os s w).0 (accept os s w).1 (accept os s w).2
        × ((n : ℕ) → d.opened (destroy os s w) n ≡ (d.opened w n && not (is_fd s.socket_fd n)))
  methods-Accounts s w port ipv ip old bytes h = (
    listen-Accounts os d unblocks port ipv s w,
    connect-Accounts os d ip port s w,
    close-Accounts os d s w,
    receive-Accounts os d old s w h,
    Accounts-Quiet os d (send os bytes) s w (send-Quiet os d bytes) h,
    accept-Accepts os d s w h,
    destroy-opened os d s w,
  )
