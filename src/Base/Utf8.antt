-- ===== src/Base/Utf8.antt =====
-- What the standard library takes for UTF-8.
use penguinsync.Base.{
  ℕ, zero, suc, Bytes, Bool, true, false, [], ◌∷◌, Option, none, some, ltb, leb, ◌==◌, ◌&&◌,
  if◌then◌else◌,
}

-- A first byte of UTF-8: how many bytes follow, and the range of the first of them.
abbrev lead : ℕ → Option (ℕ × ℕ × ℕ)
lead b =
    if ltb b 128
    then some (0, 0, 0)
    else if ltb b 194
    then none
    else if ltb b 224
    then some (1, 128, 191)
    else if b == 224
    then some (2, 160, 191)
    else if b == 237
    then some (2, 128, 159)
    else if ltb b 240
    then some (2, 128, 191)
    else if b == 240
    then some (3, 144, 191)
    else if ltb b 244
    then some (3, 128, 191)
    else if b == 244
    then some (3, 128, 143)
    else none

-- Whether the bytes are UTF-8, where `need` bytes are still to come and the first is in a range.
unfoldable pub utf8_from : (need lo hi : ℕ) → Bytes → Bool
utf8_from zero lo hi [] = true
utf8_from (suc need) lo hi [] = false
utf8_from zero lo hi (b ∷ rest) = elim (lead b) [
  | none ↦ false
  | some (need, lo', hi') ↦ utf8_from need lo' hi' rest
]
utf8_from (suc need) lo hi (b ∷ rest) = leb lo b && leb b hi && utf8_from need 128 191 rest

-- `String::from_utf8` succeeds.
unfoldable pub is_utf8 : Bytes → Bool
unfolding utf8_from
is_utf8 bs = utf8_from 0 0 0 bs
