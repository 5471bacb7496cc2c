-- ===== src/Socket.antt =====
-- src/Socket.hpp and src/Socket.cpp: a TCP socket over the calls of the operating system, as it is
-- compiled on Linux; Windows and Winsock have what is different there.
pub mod Os
pub mod State
pub mod Opening
pub mod Transfer
pub mod Names
pub mod Class
pub mod Descriptors
pub mod Winsock
pub mod Windows
pub mod Flags
pub mod Reports
pub mod Results
mod Tests
