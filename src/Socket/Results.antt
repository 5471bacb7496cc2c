-- ===== src/Socket/Results.antt =====
-- What the methods of a socket report, and what becomes of the number of an error.
use simpwire.Prelude.{ℕ, true, false, ◌≡◌, ◌≢◌, ◌≤◌, ◌⊎◌, Option, none, some, arith, length}
use simpwire.ISocket.{Bytes, ReceiveResult}
use simpwire.Socket.Os.{Os, Fd}
use simpwire.Socket.State.{Socket, set_errno, clear_errno, get_last_errno}
use simpwire.Socket.Opening.{accept, set_non_blocking}
use simpwire.Socket.Transfer.{receive, send, receive_end, classify, received_into}

-- At most so many bytes.
abbrev pub Fits : ℕ → Option Bytes → Type 0
Fits size none = Unit {0}
Fits size (some bytes) = length bytes ≤ size

abbrev pub Below : ℕ → Option ℕ → Type 0
Below size none = Unit {0}
Below size (some n) = n ≤ size

-- What is documented of recv(2) and send(2): neither handles more bytes than it was given.
abbrev pub RecvFits : Os → Type 0
RecvFits os = (fd : Fd) (size : ℕ) (w : os.World) → Fits size (os.recv fd size w).0

abbrev pub SendFits : Os → Type 0
SendFits os = (fd : Fd) (bytes : Bytes) (w : os.World) → Below (length bytes) (os.send fd bytes w).0

module _ (os : Os) where
  -- If `recv` never fills in more bytes than it has room for: either the result is `ok`, the socket
  -- was connected, and at least one byte and no more than the buffer holds was received; or the
  -- result is not `ok` and the caller's vector is as it was.
  pub receive-length :
      (old : Bytes) (s : Socket) (w : os.World)
      → RecvFits os
      → ((receive os old s w).0.0 ≡ ReceiveResult.ok)
          × (s.connected ≡ true)
          × (1 ≤ length (receive os old s w).0.1)
          × (length (receive os old s w).0.1 ≤ s.receive_buffer_size)
        ⊎ ((receive os old s w).0.0 ≢ ReceiveResult.ok) × ((receive os old s w).0.1 ≡ old)
  unfolding receive classify received_into receive_end
  receive-length old s w fits = ground (arith, fits s.socket_fd s.receive_buffer_size w)

  -- If the system's `send` takes no more bytes than it is given: `send` never reports more bytes than it was given, and none from a socket that is a listener
  -- or not connected.
  pub send-length :
      (bytes : Bytes) (s : Socket) (w : os.World)
      → SendFits os
      → ((send os bytes s w).0 ≤ length bytes)
        × (((send os bytes s w).0 ≡ 0) ⊎ ((s.connected ≡ true) × (s.listener ≡ false)))
  unfolding send
  send-length bytes s w fits = ground (arith, fits s.socket_fd bytes w)

  -- A listener that `accept` returns nothing for has the error number 0 afterwards, also where
  -- the system refused for another reason than that nobody waits.
  pub accept-last_errno :
      (s : Socket) (w : os.World)
      → s.listener ≡ true
      → (accept os s w).0 ≡ none
      → (accept os s w).1.last_errno ≡ 0
  unfolding accept set_errno clear_errno get_last_errno set_non_blocking
  accept-last_errno s w l e = ground arith
