-- ===== src/TcpNodePrivate/Notify.antt =====
-- src/TcpNodePrivate.cpp: how the listen thread calls a user's function.
use simpwire.Prelude.{none, some}
use simpwire.ISocket.{ISocket}
use simpwire.TcpNodePrivate.State.{Callback, Arguments}
use simpwire.TcpNodePrivate.Monad.{Action, pure, ◌>>◌, lock_callback, unlock_callback, invoke}

module _ {I : ISocket} where
  -- How the listen thread calls back: it gives the callback mutex up for the call. The callback
  -- mutex is held before and afterwards.
  unfoldable pub notify : Callback → Arguments → Action I (Unit {0})
  notify none args = pure tt
  notify (some f) args = do unlock_callback; invoke f args; lock_callback
