-- ===== src/TcpNodePrivate/Locks.antt =====
-- The rules for taking and giving up a mutex.
use simpwire.Prelude.{Bool, true, false, if◌then◌else◌, ◌≡◌}
use simpwire.ISocket.{ISocket}
use simpwire.Store.{relocked_mutex, unlocked_mutex, ok, fault}
use simpwire.TcpNodePrivate.State.{State}
use simpwire.TcpNodePrivate.Monad.{
  ◌>>◌, lock_data, unlock_data, lock_callback, unlock_callback, Action,
}
use simpwire.TcpNodePrivate.Contracts.{Holds, Ends}

module _ {I : ISocket} where
  -- Taking and giving up a mutex, where what follows has to know the state exactly.
  pub Ends-lock_callback :
      {B : Type 0} {Q : B → State I → Type 0} (k : Action I B) (s : State I)
      → s.callback_access ≡ false
      → Ends Q (k (record s { callback_access = true }))
      → Ends Q ((lock_callback >> k) s)
  unfolding lock_callback
  Ends-lock_callback {B} {Q} k s e h = record { holds = go s.callback_access e }
    where
      go :
          (b : Bool)
          → b ≡ false
          → Holds Q (
              (((λ _.
                    if b
                    then fault relocked_mutex
                    else ok (tt, record s { callback_access = true }))
                  >> k)
                s))
      go true e = cc
      go false e = h.holds

  pub Ends-unlock_callback :
      {B : Type 0} {Q : B → State I → Type 0} (k : Action I B) (s : State I)
      → s.callback_access ≡ true
      → Ends Q (k (record s { callback_access = false }))
      → Ends Q ((unlock_callback >> k) s)
  unfolding unlock_callback
  Ends-unlock_callback {B} {Q} k s e h = record { holds = go s.callback_access e }
    where
      go :
          (b : Bool)
          → b ≡ true
          → Holds Q (
              (((λ _.
                    if b
                    then ok (tt, record s { callback_access = false })
                    else fault unlocked_mutex)
                  >> k)
                s))
      go true e = h.holds
      go false e = cc

  pub Ends-lock_data :
      {B : Type 0} {Q : B → State I → Type 0} (k : Action I B) (s : State I)
      → s.data_access ≡ false
      → Ends Q (k (record s { data_access = true }))
      → Ends Q ((lock_data >> k) s)
  unfolding lock_data
  Ends-lock_data {B} {Q} k s e h = record { holds = go s.data_access e }
    where
      go :
          (b : Bool)
          → b ≡ false
          → Holds Q (
              (((λ _. if b then fault relocked_mutex else ok (tt, record s { data_access = true }))
                  >> k)
                s))
      go true e = cc
      go false e = h.holds

  pub Ends-unlock_data :
      {B : Type 0} {Q : B → State I → Type 0} (k : Action I B) (s : State I)
      → s.data_access ≡ true
      → Ends Q (k (record s { data_access = false }))
      → Ends Q ((unlock_data >> k) s)
  unfolding unlock_data
  Ends-unlock_data {B} {Q} k s e h = record { holds = go s.data_access e }
    where
      go :
          (b : Bool)
          → b ≡ true
          → Holds Q (
              (((λ _. if b then ok (tt, record s { data_access = false }) else fault unlocked_mutex)
                  >> k)
                s))
      go true e = h.holds
      go false e = cc
