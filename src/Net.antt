-- ===== src/Net.antt =====
-- crates/net/src: the protocol core over a network.
pub mod Transport
pub mod Framing
pub mod Tls
pub mod Identity
pub mod Endpoint
pub mod Session
pub mod Dialer
pub mod Listener
pub mod Clipboard
