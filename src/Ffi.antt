-- ===== src/Ffi.antt =====
-- crates/ffi/src: the core behind the Android app.
pub mod State
pub mod Core
