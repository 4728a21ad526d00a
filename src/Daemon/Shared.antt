-- ===== src/Daemon/Shared.antt =====
-- crates/daemon/src/shared.rs: the state that the D-Bus methods and the orchestrator share, with what
-- lies behind it: the object server, the signals and clipboard commands that went out, and the
-- orchestrator's own place when it waits for a human.
use penguinsync.Base.{ℕ, Bytes, Str, Bool, List, Option, if◌then◌else◌}
use penguinsync.Base.Map.{Map}
use penguinsync.Base.Addr.{SocketAddr}
use penguinsync.Protocol.Clip.{Clip}
use penguinsync.Protocol.Pairing.{PairingToken}
use penguinsync.Net.Tls.{TrustStore}
pub use penguinsync.Net.Listener.{SessionHandle, ListenerEvent, connected, session}
use penguinsync.Daemon.State.{PersistedState}

-- crates/daemon/src/dbus.rs: one object for each paired device.
pub record Device1 : Type 0 where
  pub name : Str
  pub device_id : Str
  pub connected : Bool

-- The signal `PairingRequested`.
pub record PairingRequest : Type 0 where
  pub device_id : Str
  pub fingerprint : Str
  pub name : Str

-- The orchestrator inside `await_confirmation`: its one-shot channel, what has come through it, and
-- the handshake that it will go on with.
pub record Waiting : Type 0 where
  pub channel : ℕ
  pub answer : Option Bool
  pub remote : SocketAddr
  pub device_id : Bytes
  pub name : Str

pub record Shared : Type 0 where
  pub identity : Bytes
  pub name : Str
  pub listen_addr : SocketAddr
  pub trust : TrustStore
  pub state : PersistedState
  pub current_token : Option PairingToken
  -- the senders of one-shot channels, by their numbers
  pub pending_confirmations : Map Bytes ℕ
  pub remote_to_device : Map SocketAddr Bytes
  pub remote_handles : Map SocketAddr SessionHandle
  pub connected_devices : Map Bytes SessionHandle
  pub last_hash : Option Bytes
  pub has_backend : Bool
  -- the file at `state_path`, and whether it can be written
  pub disk : PersistedState
  pub disk_writable : Bool
  -- the object server, by path
  pub objects : Map Str Device1
  -- what has been done: signals, calls of the clipboard backend's `write`, whose result is only
  -- logged, and commands to sessions
  pub requests : List PairingRequest
  pub applied : List (Str × Bytes)
  pub sent : List (SessionHandle × Clip)
  pub next_channel : ℕ
  pub waiting : Option Waiting
  pub inbox : List ListenerEvent

unfoldable pub persist_state : Shared → Shared
persist_state s = if s.disk_writable then record s { disk = s.state } else s
