-- ===== src/Demo.antt =====
-- src/demo/demo.cpp: a command line over the public class.
pub mod Tokens
pub mod Numbers
pub mod Console
pub mod Callbacks
pub mod Commands
pub mod Loop
mod Safety
mod Sessions
mod Effects
mod Delivery
mod Ending
mod Received
mod Tests
