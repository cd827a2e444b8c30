-- ===== src/Examples.antt =====
-- Runs of the code on concrete machines, and applications of the theorems to them.
pub mod Fixed
pub mod Laptop
pub mod Rules
pub mod Priorities
pub mod Storage
pub mod Readings
pub mod Service
pub mod Commands
pub mod Root
pub mod Session
pub mod Sockets
pub mod Stat
pub mod Copies
pub mod System
pub mod Codec
pub mod Answers
pub mod Volumes
pub mod Shell
pub mod Spared
