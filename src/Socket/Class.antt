-- ===== src/Socket/Class.antt =====
-- src/Socket.hpp: the class Socket implements ISocket.
use simpwire.ISocket.{ISocket}
use simpwire.Socket.Os.{Os}
use simpwire.Socket.State.{
  Socket, close, destroy, get_last_errno, get_last_errno_string, set_receive_buffer_size,
  set_sleep_time,
}
use simpwire.Socket.Opening.{listen, connect, accept}
use simpwire.Socket.Transfer.{receive, send}
use simpwire.Socket.Names.{peer_ip_address, peer_port, own_ip_address, peer_name}

abbrev pub socket_class : Os → ISocket
socket_class os = record {
  Sock = Socket;
  World = os.World;
  listen = listen os;
  connect = connect os;
  close = close os;
  accept = accept os;
  receive = receive os;
  send = send os;
  socket_number = λ s. s.socket_fd;
  is_listener = λ s. s.listener;
  listen_port = λ s. s.listen_port;
  is_connected = λ s. s.connected;
  is_listening = λ s. s.listening;
  peer_ip_address = peer_ip_address os;
  peer_port = peer_port os;
  own_ip_address = own_ip_address os;
  peer_name = peer_name os;
  set_receive_buffer_size = set_receive_buffer_size;
  receive_buffer_size = λ s. s.receive_buffer_size;
  set_sleep_time = set_sleep_time;
  sleep_time = λ s. s.sleep_time;
  get_last_errno = get_last_errno;
  get_last_errno_string = get_last_errno_string os;
  destroy = destroy os;
}
