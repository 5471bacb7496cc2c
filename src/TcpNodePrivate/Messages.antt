-- ===== src/TcpNodePrivate/Messages.antt =====
-- src/TcpNodePrivate.cpp: the error messages.
use simpwire.Prelude.{ℕ, Option, none, some, ◌∷◌, ◌++◌, Text, codes, to_string, ◌==◌, if◌then◌else◌}
use simpwire.Common.{Message}
use simpwire.ISocket.{ISocket}
use simpwire.TcpNodePrivate.Monad.{Action, pure, ◌>>=◌, call_socket}

-- What follows the body where there is an error number; 10 is the newline.
abbrev pub error_suffix : ℕ → Text → Text
error_suffix n text = (10 ∷ codes "Error number ") ++ (to_string n ++ (codes " :" ++ text))

-- TcpNodePrivate::_createErrorMessage. The third argument is a pointer, `none` if it is null.
unfoldable pub create_error_message : {I : ISocket} → Text → Text → Option ℕ → Action I Message
create_error_message h b none = pure (record { head = h; body = b })
create_error_message {I} h b (some sock) = do
  last_errno ← call_socket I.get_last_errno sock
  if last_errno == 0 then pure (record { head = h; body = b }) else do
    text ← call_socket I.get_last_errno_string sock
    pure (record { head = h; body = b ++ error_suffix last_errno text })
