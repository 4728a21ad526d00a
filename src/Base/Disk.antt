-- ===== src/Base/Disk.antt =====
-- `std::fs` in one directory: files by name with a mode of which only the owner's sole access is
-- kept, and a sequence of file operations that an error or a crash cuts off anywhere, a write also
-- in the middle. What the operating system buffers is taken to be on the disk.
pub mod Replacing
pub mod Files
pub mod Names
use penguinsync.Base.Tests.{◌==◌, if◌then◌else◌, Option-cases}
use penguinsync.Base.Lists.{take, All}
use penguinsync.Base.Keys.{Str, Bytes, ◌=?◌, bytes_key}
use penguinsync.Base.Map.{Map, lookup, insert, remove, lookup-insert, lookup-remove}
use Prim.Native.Nat.{ℕ, zero, suc, ◌+◌, ◌≤◌, ◌<◌}
use mathlib.Core.Path.{◌≡◌, refl, ap, ◌∙◌}
use mathlib.Core.Bool.{Bool, true, false}
use mathlib.Core.Option.{Option, none, some}
use mathlib.Core.Logic.{inl, inr, ite}
use mathlib.Core.List.{List, [], ◌∷◌, ◌++◌}
use native.Mathlib.Omega.{arith}

pub record File : Type 0 where
  pub content : Bytes
  -- mode 0600
  pub owner_only : Bool

abbrev pub Disk : Type 0
Disk = Map Str File

pub data Action : Type 0 where
  create_dir_all : Action
  write : Str → Bytes → Action
  set_owner_only : Str → Action
  rename : Str → Str → Action

-- An existing file keeps its mode; a new one has the mode of the umask.
unfoldable pub written : Str → Bytes → Disk → Disk
written path bytes d = elim (lookup path d) [
  | none ↦ insert path (record { content = bytes; owner_only = false }) d
  | some file ↦ insert path (record file { content = bytes }) d
]

unfoldable pub perform : Action → Disk → Disk
perform create_dir_all d = d
perform (write path bytes) d = written path bytes d
perform (set_owner_only path) d = elim (lookup path d) [
  | none ↦ d
  | some file ↦ insert path (record file { owner_only = true }) d
]
perform (rename old path) d = elim (lookup old d) [
  | none ↦ d
  | some file ↦ insert path file (remove old d)
]

-- How an operation fails: without a trace, or a write after some of its bytes.
unfoldable pub tear : Option ℕ → Action → Disk → Disk
tear (some n) (write path bytes) d = written path (take n bytes) d
tear torn action d = d

-- Where a sequence is cut off: after how many operations, and how the next one fails.
abbrev pub Cut : Type 0
Cut = Option (ℕ × Option ℕ)

-- The operations up to the cut, and whether all of them were done.
unfoldable pub attempt : Cut → List Action → Disk → Disk × Bool
attempt cut [] d = (d, true)
attempt none (action ∷ rest) d = attempt none rest (perform action d)
attempt (some (zero, torn)) (action ∷ rest) d = (tear torn action d, false)
attempt (some (suc n, torn)) (action ∷ rest) d = attempt (some (n, torn)) rest (perform action d)

unfoldable pub read_to_string : Str → Disk → Option Bytes
read_to_string path d = elim (lookup path d) [ none ↦ none | some file ↦ some file.content ]

unfoldable pub exists : Str → Disk → Bool
exists path d = elim (lookup path d) [ none ↦ false | some file ↦ true ]

unfoldable pub dots : Str → ℕ
dots [] = 0
dots (c ∷ rest) = if c == b'.' then suc (dots rest) else dots rest

-- `Path::file_stem`: the name up to its last dot, unless that is its first character.
unfoldable pub before_last_dot : Str → Str
before_last_dot [] = []
before_last_dot (c ∷ rest) =
    let stem = before_last_dot rest in
    if c == b'.' then if dots rest == 0 then [] else c ∷ stem else c ∷ stem

unfoldable pub file_stem : Str → Str
unfolding before_last_dot
file_stem [] = []
file_stem (c ∷ rest) = c ∷ before_last_dot rest

-- `Path::with_extension` on a file's name.
unfoldable pub with_extension : Str → Str → Str
with_extension name extension = file_stem name ++ b'.' ∷ extension
