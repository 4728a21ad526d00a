-- ===== src/Base/Trim.antt =====
-- `str::trim` on UTF-8, and `Path::join`.
use penguinsync.Base.Tests.{◌==◌, if◌then◌else◌, Option-cases}
use penguinsync.Base.Lists.{length, All}
use penguinsync.Base.Keys.{Str, bytes_key}
use Prim.Native.Nat.{ℕ, zero, suc, ◌+◌, ◌<◌, ◌≤◌}
use mathlib.Core.Path.{◌≡◌}
use mathlib.Core.Bool.{Bool, true, false}
use mathlib.Core.Logic.{inl, inr}
use native.Mathlib.Omega.{arith}
use mathlib.Core.Option.{Option, none, some}
use mathlib.Core.List.{List, [], ◌∷◌, ◌++◌, map}

-- The characters of `White_Space`.
abbrev white : List Str
white =
    (9 ∷ [])
    ∷ (10 ∷ [])
    ∷ (11 ∷ [])
    ∷ (12 ∷ [])
    ∷ (13 ∷ [])
    ∷ (32 ∷ [])
    ∷ (0xC2 ∷ 0x85 ∷ [])
    ∷ (0xC2 ∷ 0xA0 ∷ [])
    ∷ (0xE1 ∷ 0x9A ∷ 0x80 ∷ [])
    ∷ (0xE2 ∷ 0x80 ∷ 0x80 ∷ [])
    ∷ (0xE2 ∷ 0x80 ∷ 0x81 ∷ [])
    ∷ (0xE2 ∷ 0x80 ∷ 0x82 ∷ [])
    ∷ (0xE2 ∷ 0x80 ∷ 0x83 ∷ [])
    ∷ (0xE2 ∷ 0x80 ∷ 0x84 ∷ [])
    ∷ (0xE2 ∷ 0x80 ∷ 0x85 ∷ [])
    ∷ (0xE2 ∷ 0x80 ∷ 0x86 ∷ [])
    ∷ (0xE2 ∷ 0x80 ∷ 0x87 ∷ [])
    ∷ (0xE2 ∷ 0x80 ∷ 0x88 ∷ [])
    ∷ (0xE2 ∷ 0x80 ∷ 0x89 ∷ [])
    ∷ (0xE2 ∷ 0x80 ∷ 0x8A ∷ [])
    ∷ (0xE2 ∷ 0x80 ∷ 0xA8 ∷ [])
    ∷ (0xE2 ∷ 0x80 ∷ 0xA9 ∷ [])
    ∷ (0xE2 ∷ 0x80 ∷ 0xAF ∷ [])
    ∷ (0xE2 ∷ 0x81 ∷ 0x9F ∷ [])
    ∷ (0xE3 ∷ 0x80 ∷ 0x80 ∷ [])
    ∷ []

unfoldable reverse : Str → Str
reverse [] = []
reverse (c ∷ rest) = reverse rest ++ c ∷ []

-- What follows a prefix.
unfoldable pub strip_prefix : Str → Str → Option Str
strip_prefix [] s = some s
strip_prefix (p ∷ prefix) [] = none
strip_prefix (p ∷ prefix) (c ∷ s) =
    let rest = strip_prefix prefix s in if p == c then rest else none

unfoldable pub strip_any : List Str → Str → Option Str
strip_any [] s = none
strip_any (p ∷ prefixes) s = elim (strip_prefix p s) [
  | none ↦ strip_any prefixes s
  | some rest ↦ some rest
]

-- Strips as long as it can; each time the text gets shorter, so its length is fuel enough.
unfoldable strip_while : List Str → ℕ → Str → Str
strip_while prefixes zero s = s
strip_while prefixes (suc fuel) s = elim (strip_any prefixes s) [
  | none ↦ s
  | some rest ↦ strip_while prefixes fuel rest
]

unfoldable pub trim : Str → Str
unfolding strip_while reverse
trim s =
    let started = strip_while white (length s) s in
    reverse (strip_while (map reverse white) (length started) (reverse started))

unfoldable pub starts_with : Str → Str → Bool
unfolding strip_prefix
starts_with s prefix = elim (strip_prefix prefix s) [ none ↦ false | some rest ↦ true ]

unfoldable pub join_path : Str → Str → Str
unfolding starts_with reverse
join_path [] sub = sub
join_path (c ∷ base) sub =
    if starts_with sub (b'/' ∷ [])
    then sub
    else if starts_with (reverse (c ∷ base)) (b'/' ∷ [])
    then (c ∷ base) ++ sub
    else (c ∷ base) ++ b'/' ∷ sub

strip_prefix-length :
    (prefix s rest : Str)
    → strip_prefix prefix s ≡ some rest
    → length s ≡ length prefix + length rest
unfolding strip_prefix
strip_prefix-length [] s rest e = ground arith
strip_prefix-length (p ∷ prefix) [] rest e = ground arith
strip_prefix-length (p ∷ prefix) (c ∷ s) rest e = ground (arith, strip_prefix-length prefix s rest)

strip_any-length :
    (prefixes : List Str) (s rest : Str)
    → All (λ p. 0 < length p) prefixes
    → strip_any prefixes s ≡ some rest
    → length rest < length s
unfolding strip_any
strip_any-length [] s rest h e = ground arith
strip_any-length (p ∷ prefixes) s rest h e = elim (Option-cases (strip_prefix p s)) [
  | inl other ↦ ground (arith, strip_any-length prefixes s rest h.1)
  | inr (found, is_found) ↦ ground (arith, strip_prefix-length p s found is_found)
]

-- The fuel is enough: nothing is left to strip.
strip_while-done :
    (prefixes : List Str) (fuel : ℕ) (s : Str)
    → All (λ p. 0 < length p) prefixes
    → length s ≤ fuel
    → strip_any prefixes (strip_while prefixes fuel s) ≡ none
unfolding strip_while
strip_while-done prefixes zero s h le = elim (Option-cases (strip_any prefixes s)) [
  | inl stuck ↦ stuck
  | inr (rest, stripped) ↦ ground (arith, strip_any-length prefixes s rest h stripped)
]
strip_while-done prefixes (suc fuel) s h le = elim (Option-cases (strip_any prefixes s)) [
  | inl stuck ↦ ground arith
  | inr (rest, stripped) ↦
      ground
        (arith, strip_any-length prefixes s rest h stripped, strip_while-done prefixes fuel rest h)
]
