-- ===== src/Base/Disk/Files.antt =====
-- What a file holds after file operations, and which files an operation leaves alone.
use penguinsync.Base.Tests.{Option-cases}
use penguinsync.Base.Lists.{take, All}
use penguinsync.Base.Keys.{Str, Bytes, ◌=?◌, bytes_key}
use penguinsync.Base.Map.{lookup, remove, lookup-insert, lookup-remove}
use Prim.Native.Nat.{ℕ, zero, suc}
use mathlib.Core.Path.{◌≡◌, refl, ◌∙◌}
use mathlib.Core.Bool.{true, false}
use mathlib.Core.Option.{Option, none, some}
use mathlib.Core.Logic.{inl, inr, ite}
use mathlib.Core.List.{List, [], ◌∷◌}
use native.Mathlib.Omega.{arith}
use penguinsync.Base.Disk.{
  Disk, Action, Cut, create_dir_all, write, set_owner_only, rename, written, perform, tear, attempt,
  read_to_string,
}

-- What is read of a file after each operation.
pub read-written :
    (path other : Str) (bytes : Bytes) (d : Disk)
    → read_to_string other (written path bytes d)
      ≡ ite (path =? other) (some bytes) (read_to_string other d)
unfolding written read_to_string
read-written path other bytes d = elim (Option-cases (lookup path d)) [
  | inl absent ↦
      ground (arith, lookup-insert path other (record { content = bytes; owner_only = false }) d)
  | inr (file, found) ↦ ground (arith, lookup-insert path other (record file { content = bytes }) d)
]

pub read-rename :
    (old path other : Str) (d : Disk) (bytes : Bytes)
    → read_to_string old d ≡ some bytes
    → ¬ (old ≡ path)
    → read_to_string other (perform (rename old path) d)
      ≡ ite (path =? other) (some bytes) (ite (old =? other) none (read_to_string other d))
unfolding perform read_to_string
read-rename old path other d bytes h apart = elim (Option-cases (lookup old d)) [
  | inl absent ↦ ground arith
  | inr (file, found) ↦
      ground (arith, lookup-insert path other file (remove old d), lookup-remove old other d)
]

-- A write leaves the other files as they are.
pub lookup-written :
    (path other : Str) (bytes : Bytes) (d : Disk)
    → ¬ (path ≡ other)
    → lookup other (written path bytes d) ≡ lookup other d
unfolding written
lookup-written path other bytes d apart = elim (Option-cases (lookup path d)) [
  | inl absent ↦
      ground (arith, lookup-insert path other (record { content = bytes; owner_only = false }) d)
  | inr (file, found) ↦ ground (arith, lookup-insert path other (record file { content = bytes }) d)
]

pub lookup-set_owner_only :
    (path other : Str) (d : Disk)
    → ¬ (path ≡ other)
    → lookup other (perform (set_owner_only path) d) ≡ lookup other d
unfolding perform
lookup-set_owner_only path other d apart = elim (Option-cases (lookup path d)) [
  | inl absent ↦ ground arith
  | inr (file, found) ↦
      ground (arith, lookup-insert path other (record file { owner_only = true }) d)
]

-- A file that was written and then closed to others holds the text and is closed to others.
pub lookup-sealed :
    (path : Str) (bytes : Bytes) (d : Disk)
    → lookup path (perform (set_owner_only path) (written path bytes d))
      ≡ some (record { content = bytes; owner_only = true })
unfolding perform read_to_string
lookup-sealed path bytes d =
    let d' = written path bytes d in
    elim (Option-cases (lookup path d')) [
      | inl absent ↦ ground (arith, read-written path path bytes d)
      | inr (file, found) ↦ ground (
        arith,
        read-written path path bytes d,
        lookup-insert path path (record file { owner_only = true }) d',
      )
    ]

-- The action is about other files than this one.
abbrev Spares : Str → Action → Type 0
Spares path create_dir_all = Unit
Spares path (write p bytes) = ¬ (p ≡ path)
Spares path (set_owner_only p) = ¬ (p ≡ path)
Spares path (rename old new) = ¬ (old ≡ path) × ¬ (new ≡ path)

perform-other :
    (action : Action) (d : Disk) (path : Str)
    → Spares path action
    → lookup path (perform action d) ≡ lookup path d
unfolding perform
perform-other create_dir_all d path h = refl
perform-other (write p bytes) d path h = lookup-written p path bytes d h
perform-other (set_owner_only p) d path h = lookup-set_owner_only p path d h
perform-other (rename old new) d path h = elim (Option-cases (lookup old d)) [
  | inl absent ↦ ground arith
  | inr (file, found) ↦
      ground (arith, lookup-insert new path file (remove old d), lookup-remove old path d)
]

tear-other :
    (torn : Option ℕ) (action : Action) (d : Disk) (path : Str)
    → Spares path action
    → lookup path (tear torn action d) ≡ lookup path d
unfolding tear
tear-other none action d path h = refl
tear-other (some n) create_dir_all d path h = refl
tear-other (some n) (write p bytes) d path h = lookup-written p path (take n bytes) d h
tear-other (some n) (set_owner_only p) d path h = refl
tear-other (some n) (rename old new) d path h = refl

-- A sequence that is not about a file leaves it as it is, wherever it is cut off.
pub attempt-other :
    (cut : Cut) (actions : List Action) (d : Disk) (path : Str)
    → All (Spares path) actions
    → lookup path (attempt cut actions d).0 ≡ lookup path d
unfolding attempt
attempt-other cut [] d path h = refl
attempt-other none (a ∷ rest) d path h =
    attempt-other none rest (perform a d) path h.1 ∙ perform-other a d path h.0
attempt-other (some (zero, torn)) (a ∷ rest) d path h = tear-other torn a d path h.0
attempt-other (some (suc n, torn)) (a ∷ rest) d path h =
    attempt-other (some (n, torn)) rest (perform a d) path h.1 ∙ perform-other a d path h.0
