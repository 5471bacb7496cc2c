-- ===== src/TcpNodePrivate/ErrorTexts.antt =====
-- The error messages of a node whose sockets are of the class Socket.
use simpwire.Prelude.{ℕ, ◌≡◌, some, [], Text, arith, ◌==◌, ◌++◌, if◌then◌else◌}
use simpwire.Socket.Os.{Os}
use simpwire.Socket.State.{Socket, get_last_errno, get_last_errno_string}
use simpwire.Socket.Class.{socket_class}
use simpwire.TcpNodePrivate.State.{State}
use simpwire.TcpNodePrivate.Monad.{call_socket}
use simpwire.TcpNodePrivate.Messages.{create_error_message, error_suffix}
use simpwire.TcpNodePrivate.Contracts.{Ends}

module _ (os : Os) where
  -- The message of a socket with an error gives the error's number and no text: reading the number
  -- has cleared it before the text is asked for. Without an error it is the given body alone.
  -- Afterwards the socket has no error.
  pub create_error_message-body :
      (h b : Text) (a : ℕ) (sock : Socket) (s : State (socket_class os))
      → s.store.cell a ≡ some sock
      → Ends
          (λ msg t.
            (msg.head ≡ h)
            × (msg.body
                ≡ (if sock.last_errno == 0 then b else b ++ error_suffix sock.last_errno []))
            × (t.store.cell a ≡ some (record sock { last_errno = 0 })))
          (create_error_message {I = socket_class os} h b (some a) s)
  unfolding create_error_message call_socket get_last_errno get_last_errno_string
  create_error_message-body h b a sock s e = record { holds = ground arith }
