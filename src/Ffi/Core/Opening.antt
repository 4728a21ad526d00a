-- ===== src/Ffi/Core/Opening.antt =====
-- crates/ffi/src/core.rs: how the app's core comes up on its data directory, and what its screens ask.
-- The start of the runtime gives its answer as an argument.
use penguinsync.Base.{Str, str, Bool, List, ◌++◌}
use penguinsync.Base.Result.{Result, ok, err}
use penguinsync.Base.Decimal.{u16_to_string}
use penguinsync.Base.Disk.{Disk, Cut}
use penguinsync.Base.Disk.Replacing.{Json}
use penguinsync.Protocol.Hex.{short_fingerprint}
use penguinsync.Net.Tls.{Crypto}
use penguinsync.Net.Identity.{Rcgen, Identity, IdentityError, load_or_generate}
use penguinsync.Net.Session.{
  CloseReason, version_mismatch_closed, keepalive_timed_out_closed, connection_lost, framing_error,
}
use penguinsync.Ffi.State.{PersistedPeers, entries}
use penguinsync.Ffi.State.Saving.{load}
use penguinsync.Ffi.Core.{PenguinSyncCore, new}

pub data OpenError : Type 0 where
  identity_error : IdentityError → OpenError
  network_error : Str → OpenError

abbrev pub peers_file : Str
peers_file = str "peers.json"

pub record App {crypto : Crypto} (rcgen : Rcgen crypto) : Type 0 where
  pub identity : Identity rcgen
  pub core : PenguinSyncCore

module _ {crypto : Crypto} (rcgen : Rcgen crypto) (json : Json PersistedPeers) where
  open rcgen use {KeyPair}

  -- The data directory after it, and the app's core. `writable` is whether the list of peers can be
  -- written later.
  unfoldable pub open_app :
      (fresh : Result Str KeyPair)
      → Cut
      → (runtime : Result Str (Unit {0})) → (writable : Bool) → Disk
      → Disk × Result OpenError (App rcgen)
  open_app fresh cut runtime writable d =
      let (d', found) = load_or_generate rcgen fresh cut d in
      (
        d',
        elim found [
          | err e ↦ err (identity_error e)
          | ok identity ↦ elim runtime [
            | err e ↦ err (network_error e)
            | ok _ ↦
                ok (record { identity = identity; core = new (load json peers_file d') writable })
          ]
        ],
      )

  unfoldable device_fingerprint : App rcgen → Str
  device_fingerprint app = short_fingerprint app.identity.device_id

unfoldable list_paired_devices : Json PersistedPeers → Disk → List (Str × Str)
list_paired_devices json d = entries (load json peers_file d)

unfoldable describe_close : CloseReason → Str
describe_close (version_mismatch_closed ours theirs) =
    str "protocol version mismatch (this app: "
    ++ u16_to_string ours
    ++ str ", peer: "
    ++ u16_to_string theirs
    ++ str ")"
describe_close keepalive_timed_out_closed = str "connection timed out"
describe_close (connection_lost s) = s
describe_close (framing_error s) = s
