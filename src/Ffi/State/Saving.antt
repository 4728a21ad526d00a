-- ===== src/Ffi/State/Saving.antt =====
-- crates/ffi/src/state.rs: `load` and `save`, on a disk that may fail at any moment.
use penguinsync.Base.{◌≡◌, Str, Bool, [], if◌then◌else◌}
use penguinsync.Base.Disk.{Disk, Cut}
use penguinsync.Base.Disk.Replacing.{Json, store, fetch, fetch-store}
use penguinsync.Ffi.State.{PersistedPeers}

-- `unwrap_or_default`
unfoldable pub load : Json PersistedPeers → Str → Disk → PersistedPeers
unfolding fetch
load json path d = fetch json (record { peers = [] }) path d

-- The disk after it, and whether it succeeded.
unfoldable pub save : Json PersistedPeers → PersistedPeers → Str → Cut → Disk → Disk × Bool
unfolding store
save json s path cut d = store path (json.to_vec_pretty s) cut d

-- The app's list of peers outlives a save that stops anywhere: what is loaded next is the list
-- saved, if the save succeeded, and the one before it otherwise.
load-save_peers :
    (json : Json PersistedPeers) (s : PersistedPeers) (path : Str) (cut : Cut) (d : Disk)
    → let after = save json s path cut d in
      load json path after.0 ≡ (if after.1 then s else load json path d)
unfolding load save
load-save_peers json s path cut d = fetch-store json (record { peers = [] }) path s cut d
