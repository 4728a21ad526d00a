-- ===== src/Net/Clipboard.antt =====
-- crates/net/src/clipboard.rs: what a clipboard backend of a desktop gives.
use penguinsync.Base.{Bytes, Str, List}
use penguinsync.Base.Result.{Result}

pub data ClipboardError : Type 0 where
  not_available : ClipboardError
  backend_unavailable : Str → ClipboardError
  other : Str → ClipboardError

pub record ClipChanged : Type 0 where
  pub mime : Str

-- The trait, for a desktop whose clipboard is in one of the states `S`. The stream of notifications
-- comes with the state that the desktop is in when each is handled.
pub record ClipboardBackend (S : Type 0) : Type 0 where
  pub watch : List (ClipChanged × S)
  pub read : Str → S → Result ClipboardError Bytes
  pub write : Str → Bytes → S → Result ClipboardError S
