-- ===== src/TcpNodePrivate/Steady/Notices.antt =====
-- src/TcpNodePrivate.cpp: calls of the user's functions, and error messages.
use simpwire.Prelude.{ℕ, Option, none, some, Text}
use simpwire.ISocket.{ISocket}
use simpwire.TcpNodePrivate.State.{Callback, Arguments}
use simpwire.TcpNodePrivate.Notify.{notify}
use simpwire.TcpNodePrivate.Messages.{create_error_message}
use simpwire.TcpNodePrivate.ConnectThread.{notify_locked}
use simpwire.TcpNodePrivate.Steady.{Steady, steady}

module _ {I : ISocket} where
  pub notify-Steady : (f : Callback) (args : Arguments) → Steady (notify {I = I} f args)
  unfolding notify
  notify-Steady none args = search steady
  notify-Steady (some f) args = search steady depth 8

  pub notify_locked-Steady :
      (f : Callback) (args : Arguments) → Steady (notify_locked {I = I} f args)
  unfolding notify_locked
  notify_locked-Steady none args = search steady
  notify_locked-Steady (some f) args = search steady

  pub create_error_message-Steady :
      (h b : Text) (sock : Option ℕ) → Steady (create_error_message {I = I} h b sock)
  unfolding create_error_message
  create_error_message-Steady h b none = search steady
  create_error_message-Steady h b (some sock) = search steady depth 8

pub ruleset notices = (steady, notify-Steady, notify_locked-Steady, create_error_message-Steady)
