-- ===== src/Socket/Tests.antt =====
-- Calls of a socket over a small system.
use simpwire.Prelude.{◌≤◌, ◌⊎◌, ◌≡◌, ◌≢◌, true, false, some, refl, [], ◌∷◌, codes, arith, length}
use simpwire.Common.{any}
use simpwire.ISocket.{ReceiveResult}
use simpwire.Socket.State.{Socket, close, new_socket}
use simpwire.Socket.Opening.{listen, connect, accept}
use simpwire.Socket.Transfer.{receive, send}
use simpwire.Socket.Flags.{Valid, OptionValid, methods-Valid}
use simpwire.Socket.Results.{RecvFits, SendFits, receive-length, send-length, accept-last_errno}
use simpwire.Samples.{small_os}

abbrev connected_socket : Socket
connected_socket = record new_socket { socket_fd = some 5; connected = true }

abbrev listener_socket : Socket
listener_socket = record new_socket { socket_fd = some 5; listener = true; listening = true }

connected_socket-Valid : Valid connected_socket
unfolding new_socket
connected_socket-Valid = record { one_role = refl; role_has_fd = λ e. cc; listens = λ e. cc }

small_os-RecvFits : RecvFits small_os
small_os-RecvFits fd size w = ground arith

small_os-SendFits : SendFits small_os
small_os-SendFits fd bytes w = omega arith

methods-Valid_example :
    Valid (listen small_os 80 any connected_socket 0).1
    × Valid (connect small_os (codes "::1") 80 connected_socket 0).1
    × Valid (close small_os connected_socket 0).1
    × Valid (accept small_os connected_socket 0).1
    × Valid (receive small_os [] connected_socket 0).1
    × Valid (send small_os (7 ∷ []) connected_socket 0).1
    × OptionValid (accept small_os connected_socket 0).0
methods-Valid_example =
    methods-Valid small_os connected_socket 0 80 any (codes "::1") [] (7 ∷ [])
      connected_socket-Valid

receive-length_example :
    ((receive small_os [] connected_socket 0).0.0 ≡ ReceiveResult.ok)
      × (connected_socket.connected ≡ true)
      × (1 ≤ length (receive small_os [] connected_socket 0).0.1)
      × (length (receive small_os [] connected_socket 0).0.1 ≤ connected_socket.receive_buffer_size)
    ⊎ ((receive small_os [] connected_socket 0).0.0 ≢ ReceiveResult.ok)
      × ((receive small_os [] connected_socket 0).0.1 ≡ [])
receive-length_example = receive-length small_os [] connected_socket 0 small_os-RecvFits

send-length_example :
    ((send small_os (7 ∷ []) connected_socket 0).0 ≤ 1)
    × (((send small_os (7 ∷ []) connected_socket 0).0 ≡ 0)
        ⊎ ((connected_socket.connected ≡ true) × (connected_socket.listener ≡ false)))
send-length_example = send-length small_os (7 ∷ []) connected_socket 0 small_os-SendFits

accept-last_errno_example : (accept small_os listener_socket 0).1.last_errno ≡ 0
unfolding new_socket accept
accept-last_errno_example = accept-last_errno small_os listener_socket 0 refl refl
