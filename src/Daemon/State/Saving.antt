-- ===== src/Daemon/State/Saving.antt =====
-- crates/daemon/src/state.rs: `load` and `save`, on a disk that may fail at any moment.
use penguinsync.Base.{◌≡◌, Str, Bool, if◌then◌else◌}
use penguinsync.Base.Disk.{Disk, Cut}
use penguinsync.Base.Disk.Replacing.{Json, store, fetch, fetch-store}
use penguinsync.Daemon.State.{PersistedState, empty}

-- A file that cannot be read or understood is taken for an empty one.
unfoldable pub load : Json PersistedState → Str → Disk → PersistedState
unfolding fetch
load json path d = fetch json empty path d

-- The disk after it, and whether it succeeded.
unfoldable pub save : Json PersistedState → PersistedState → Str → Cut → Disk → Disk × Bool
unfolding store
save json s path cut d = store path (json.to_vec_pretty s) cut d

-- Wherever a save stops, by an error or by a crash in the middle of a write, what is loaded next is
-- the state that was loaded before it, entire; after a save that succeeded it is the state saved.
pub load-save :
    (json : Json PersistedState) (s : PersistedState) (path : Str) (cut : Cut) (d : Disk)
    → let after = save json s path cut d in
      load json path after.0 ≡ (if after.1 then s else load json path d)
unfolding load save
load-save json s path cut d = fetch-store json empty path s cut d
