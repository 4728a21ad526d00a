-- ===== src/Daemon.antt =====
-- crates/daemon/src: the background daemon of the desktop.
pub mod State
pub mod Config
pub mod Start
pub mod Shared
pub mod Clipboard
pub mod Dbus
pub mod NetAddrs
pub mod Orchestrator
pub mod World
pub mod Tasks
pub mod Connections
pub mod Delivery
