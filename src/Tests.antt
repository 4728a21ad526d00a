-- ===== src/Tests.antt =====
-- Concrete runs of the program's parts.
pub mod Crates
pub mod Protocol
pub mod Net
pub mod Daemon
pub mod Clipboards
pub mod Tasks
pub mod Apps
pub mod Starts
pub mod Meeting
pub mod Delivery
pub mod Pairings
pub mod Reopened
pub mod Commands
