-- ===== src/TcpNodePrivate.antt =====
-- src/TcpNodePrivate.hpp and src/TcpNodePrivate.cpp: the node behind the public class.
pub mod State
pub mod Monad
pub mod Map
pub mod Messages
pub mod Settings
pub mod Contracts
pub mod Locks
pub mod Frames
pub mod Invariant
pub mod Ownership
pub mod Sections
pub mod Safety
pub mod Requests
pub mod Destructor
pub mod Notify
pub mod Listener
pub mod Accept
pub mod Receive
pub mod Remove
pub mod ListenThread
pub mod ConnectThread
pub mod Latest
pub mod ErrorTexts
pub mod Leak
pub mod Drain
pub mod Queued
pub mod Listening
pub mod Removal
pub mod Reception
pub mod Delivery
pub mod Replacement
pub mod Mutexes
pub mod Steady
pub mod Stopping
pub mod Refusal
pub mod SendOrder
pub mod Retry
mod Tests
pub mod SendThread
