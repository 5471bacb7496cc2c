-- ===== src/Lib.antt =====
-- simpwire, a C++ library for TCP connections: a node listens, connects, sends and receives, and
-- reports through callbacks. This library models the node, its peers and its sockets.
--
-- Parts of the program and the files that model them:
--   include/common.hpp         Common: messages, IP versions, the version string
--   src/ISocket.hpp            ISocket: a record of the methods, over a type of objects and a world
--   src/Socket.hpp, .cpp       Socket and its children: the methods as on Linux, over a record `Os`
--                              of the system's calls (Socket/Os), which are parameters.
--                              Socket/Windows: what is different on Windows. Socket/Winsock: the
--                              constructor and the destructor there
--   src/PeerPrivate.hpp, .cpp  PeerPrivate: the data of a peer and its operations
--   src/Peer.cpp               Peer: the getters; a moved-from Peer is `none`. Peer/Objects: the
--                              constructors, the assignment and the destructor on a heap
--   src/TcpNodePrivate.hpp     TcpNodePrivate/State: the members of a node
--   src/TcpNodePrivate.cpp     TcpNodePrivate/Requests and Settings (what a user calls), Listener,
--                              Accept, Receive and Remove (the parts of the listen thread's turn),
--                              ListenThread, ConnectThread and SendThread (the turns), Messages,
--                              Destructor
--                              Mutexes: what each part of the code does with the two mutexes, and
--                              threads that do it at the same time
--   src/TcpNode.cpp            TcpNode: `Call` has one constructor for each method, `perform` does
--                              the call, `step` and `run` interleave calls and turns
--   demo/demo.cpp              Demo/Tokens (tokenize), Demo/Numbers (std::stoi and the casts),
--                              Demo/Console (the lines and words), Demo/Callbacks (what the
--                              callbacks print), Demo/Commands (one command), Demo/Loop (the input
--                              and the main loop)
--
-- A node uses its sockets through ISocket only; the theorems about the node hold for every
-- implementation, those in TcpNodePrivate/ErrorTexts for the class Socket. Socket objects live in a
-- store (Store), so that a pointer may dangle. Code is an `Action`: from a state to a result and a
-- state, or a `Fault`. The two mutexes are flags of the state, and locking one that is held is a
-- fault. A callback is a name that is written to the list of events with the mutexes held then.
--
-- Threads: each has a position (ThreadPc, ConnectPc), and a turn goes from one position to the
-- next. The listen thread's turn is the part before its wait or the part after it; the connect
-- thread's is one attempt; the send thread's is one entry of the queue. A turn is one step: other
-- threads run between turns. Sleeps at the end of a turn are left out. A thread in `waiting` looks
-- at the condition of its wait in its next turn, and goes on or falls asleep; one that is `asleep`
-- makes no step until a notification (`notify_listen`, `notify_connect`, `notify_send`, and those
-- of the destructor) puts it back to `waiting`. Looking and falling asleep are one step: a
-- notification in between, which the source can lose where it notifies without the mutex, is not
-- modelled. What is interleaved within a turn is in TcpNodePrivate/Mutexes, for the two mutexes
-- alone: a program of locks and unlocks for each part of the code (`locks`), and a step relation
-- between lists of threads. TcpNode/Destruction has the destructor with the turns that the threads
-- make while it waits.
--
-- Peer objects: Peer/Objects has the pointers, Peer/Objects/Values what they amount to. The node
-- takes a Peer as a value.
--
-- The demo: a command goes through `perform` or the node's own actions, and its result is the list
-- of lines that the main thread prints. `main_loop` gets a schedule: the steps that the threads make
-- before each of its turns. In which order lines of different threads appear is left open.
--
-- Fuel: the loop of an attempt to connect (`connect_loop`) gets `connect_rounds` rounds, one more
-- than the timeout has nanoseconds; that is enough if the clock measures a nanosecond at
-- least for each sleep.
-- `tokenize` gets one round more than the text has characters: each token takes one at least. The
-- turns of `main_loop` and of the destructor's waits are given by a schedule.
--
-- Widths: the counter of connections wraps at 64 bits, the send thread's count of its queue at 8.
-- Ports are natural numbers; the demo's casts of an int to 16 and 64 bits wrap (`to_unsigned`).
--
-- Not modelled: the unit tests, what a user's callback does (it may call the
-- node again; for those of the demo, what they print is modelled), the order of iteration of
-- std::unordered_map (new peers go in front here), wake-ups of condition variables without a
-- notification, and waits in Mutexes (a thread goes through them there).
--
-- Helpers: Prelude (tests on numbers, lists, texts), TcpNodePrivate/Contracts (when an action
-- ends, and in which states), Frames, Invariant, Ownership and Sections (the invariant and how it
-- is kept), Safety (one child for each part of a node), Steady and Stopping (what a turn leaves
-- alone, and how far a thread is from its end), Samples (data for the tests). Socket/Descriptors has
-- what POSIX says of file descriptors (`Descriptors`, a parameter).
-- Demo/Safety has what every command keeps, Demo/Effects, Delivery, Ending and Received what single
-- commands and the loop do.
pub mod Prelude
pub mod Common
pub mod ISocket
pub mod Store
pub mod Peer
pub mod PeerPrivate
pub mod Socket
pub mod TcpNodePrivate
pub mod TcpNode
pub mod Demo
pub mod Samples
