-- ===== src/Cli.antt =====
-- crates/cli/src: the command line's user interface.
pub mod Qr
pub mod Client
pub mod Commands
pub mod Tui
