-- ===== src/TcpNodePrivate/Safety.antt =====
-- Every call and every turn of a thread ends without a fault and keeps the invariant. One child for
-- each part of the node.
pub mod Listener
pub mod Loose
pub mod Accept
pub mod Receive
pub mod Remove
pub mod ListenThread
pub mod SendThread
pub mod Positions
pub mod ConnectLoop
pub mod Attempt
pub mod ConnectThread
