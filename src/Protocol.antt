-- ===== src/Protocol.antt =====
-- crates/protocol/src: the sans-I/O protocol core.
pub mod Hex
pub mod Backoff
pub mod Clip
pub mod Message
pub mod Pairing
pub mod Connection
pub mod Qr
