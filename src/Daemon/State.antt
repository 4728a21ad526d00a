-- ===== src/Daemon/State.antt =====
-- crates/daemon/src/state.rs: the paired devices as they are kept on disk.
pub mod Devices
pub mod Saving
use penguinsync.Base.{
  ℕ, Bytes, Str, str, List, [], ◌∷◌, Option, none, some, ite, ◌=?◌, bytes_key, map,
}
use penguinsync.Protocol.Hex.{to_hex, from_hex}

pub record PersistedDevice : Type 0 where
  pub device_id : Str
  pub name : Str

pub record PersistedState : Type 0 where
  pub devices : List PersistedDevice

abbrev pub empty : PersistedState
empty = record { devices = [] }

-- The first device of that id is renamed; a new one goes to the end.
unfoldable pub upsert_in : Str → Str → List PersistedDevice → List PersistedDevice
upsert_in hex name [] = record { device_id = hex; name = name } ∷ []
upsert_in hex name (d ∷ rest) =
    ite (d.device_id =? hex) (record d { name = name } ∷ rest) (d ∷ upsert_in hex name rest)

unfoldable pub upsert : PersistedState → Bytes → Str → PersistedState
upsert s device_id name = record { devices = upsert_in (to_hex device_id) name s.devices }

unfoldable pub retain_other : Str → List PersistedDevice → List PersistedDevice
retain_other hex [] = []
retain_other hex (d ∷ rest) =
    ite (d.device_id =? hex) (retain_other hex rest) (d ∷ retain_other hex rest)

unfoldable pub remove : PersistedState → Bytes → PersistedState
remove s device_id = record { devices = retain_other (to_hex device_id) s.devices }

-- `filter_map` of `from_hex`
unfoldable pub ids_of : List PersistedDevice → List Bytes
ids_of [] = []
ids_of (d ∷ rest) = elim (from_hex d.device_id) [ none ↦ ids_of rest | some id ↦ id ∷ ids_of rest ]

unfoldable pub device_ids : PersistedState → List Bytes
unfolding ids_of
device_ids s = ids_of s.devices
