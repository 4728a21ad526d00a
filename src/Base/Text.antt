-- ===== src/Base/Text.antt =====
-- What the source uses of Rust's `str` and integer parsing: slices on character boundaries, and
-- `from_str_radix` / `parse` of an unsigned integer, which accept one leading plus sign.
use penguinsync.Base.Tests.{ltb, leb, ◌==◌, if◌then◌else◌, Option-cases, le→leb}
use penguinsync.Base.Lists.{length, get_elem?, take, drop, All, length-append, drop-append_length}
use penguinsync.Base.Keys.{Str}
use Prim.Native.Nat.{ℕ, zero, suc, ◌+◌, ◌-◌, ◌*◌, ◌≤◌, ◌<◌}
use mathlib.Core.Path.{◌≡◌, refl}
use mathlib.Core.Bool.{Bool, true, ◌&&◌, ◌||◌}
use mathlib.Core.Option.{Option, none, some}
use mathlib.Core.List.{[], ◌∷◌, ◌++◌}
use mathlib.Core.Logic.{inl, inr}
use native.Mathlib.Omega.{arith}

infixl 5 ◌>>=◌
abbrev pub ◌>>=◌ {ℓ κ} : {A : Type ℓ} {B : Type κ} → Option A → (A → Option B) → Option B
none >>= f = none
some a >>= f = f a

abbrev pub IsAscii : Str → Type 0
IsAscii = All (λ c. c < 128)

-- `str::is_char_boundary`: no continuation byte stands at the index.
unfoldable pub is_char_boundary : Str → ℕ → Bool
is_char_boundary s zero = true
is_char_boundary s (suc i) = elim (get_elem? s (suc i)) [
  | none ↦ suc i == length s
  | some b ↦ ltb b 128 || leb 192 b
]

-- `s.get(lo..hi)`
unfoldable pub str_get : Str → ℕ → ℕ → Option Str
unfolding is_char_boundary
str_get s lo hi =
    if leb lo hi && leb hi (length s) && is_char_boundary s lo && is_char_boundary s hi
    then some (take (hi - lo) (drop lo s))
    else none

-- `char::to_digit`
unfoldable pub to_digit : ℕ → ℕ → Option ℕ
to_digit radix c =
    let d : ℕ =
      if leb b'0' c && leb c b'9'
      then c - b'0'
      else if leb b'a' c && leb c b'z'
      then c - b'a' + 10
      else if leb b'A' c && leb c b'Z'
      then c - b'A' + 10
      else radix in
    if ltb d radix then some d else none

-- The digits of a number, refused once the value passes `limit`.
unfoldable pub parse_digits : ℕ → ℕ → ℕ → Str → Option ℕ
parse_digits radix limit acc [] = some acc
parse_digits radix limit acc (c ∷ cs) = do
  d ← to_digit radix c
  let n = acc * radix + d
  let rest = parse_digits radix limit n cs
  if ltb limit n then none else rest

-- `from_str_radix` of the unsigned type whose greatest value is `limit`.
unfoldable pub from_str_radix : ℕ → ℕ → Str → Option ℕ
from_str_radix radix limit [] = none
from_str_radix radix limit (c ∷ []) =
    if c == b'+' || c == b'-' then none else parse_digits radix limit 0 (c ∷ [])
from_str_radix radix limit (c ∷ d ∷ cs) =
    if c == b'+'
    then parse_digits radix limit 0 (d ∷ cs)
    else parse_digits radix limit 0 (c ∷ d ∷ cs)

IsAscii-get_elem? : (s : Str) (i b : ℕ) → IsAscii s → get_elem? s i ≡ some b → b < 128
IsAscii-get_elem? (x ∷ s) zero b h e = ground arith
IsAscii-get_elem? (x ∷ s) (suc i) b h e = IsAscii-get_elem? s i b h.1 e
IsAscii-get_elem? [] i b h e = ground arith

get_elem?-none : (s : Str) (i : ℕ) → get_elem? s i ≡ none → length s ≤ i
get_elem?-none [] i e = ground arith
get_elem?-none (x ∷ s) zero e = ground arith
get_elem?-none (x ∷ s) (suc i) e = omega (arith, get_elem?-none s i e)

-- In ASCII every index is a character boundary.
IsAscii-boundary : (s : Str) (i : ℕ) → IsAscii s → i ≤ length s → is_char_boundary s i ≡ true
unfolding is_char_boundary
IsAscii-boundary s zero h le = refl
IsAscii-boundary s (suc i) h le = elim (Option-cases (get_elem? s (suc i))) [
  | inl e ↦ ground (arith, get_elem?-none s (suc i) e)
  | inr (b, e) ↦ ground (arith, IsAscii-get_elem? s (suc i) b h e)
]

-- The two characters at an even place of an ASCII text.
pub str_get-pair :
    (i a b : ℕ) (pre rest : Str)
    → IsAscii (pre ++ a ∷ b ∷ rest)
    → length pre ≡ i * 2
    → str_get (pre ++ a ∷ b ∷ rest) (i * 2) (i * 2 + 2) ≡ some (a ∷ b ∷ [])
unfolding str_get
str_get-pair i a b pre rest h len =
    let s : Str = pre ++ a ∷ b ∷ rest in
    let size : length s ≡ i * 2 + 2 + length rest =
      omega (arith, length-append pre (a ∷ b ∷ rest)) in
    let two : i * 2 + 2 - i * 2 ≡ suc (suc zero) = omega arith in
    rw (
      le→leb (i * 2) (i * 2 + 2) (omega arith),
      le→leb (i * 2 + 2) (length s) (omega arith),
      IsAscii-boundary s (i * 2) h (omega arith),
      IsAscii-boundary s (i * 2 + 2) h (omega arith),
      drop-append_length (i * 2) pre (a ∷ b ∷ rest) len,
      two,
    )

parse_digits-le :
    (radix limit acc : ℕ) (s : Str) (n : ℕ)
    → acc ≤ limit
    → parse_digits radix limit acc s ≡ some n
    → n ≤ limit
unfolding parse_digits
parse_digits-le radix limit acc [] n h e = ground arith
parse_digits-le radix limit acc (c ∷ cs) n h e = elim (Option-cases (to_digit radix c)) [
  | inl bad ↦ ground arith
  | inr (d, good) ↦ ground (arith, parse_digits-le radix limit (acc * radix + d) cs n)
]

-- A number that was parsed fits its type.
pub from_str_radix-le :
    (radix limit : ℕ) (s : Str) (n : ℕ) → from_str_radix radix limit s ≡ some n → n ≤ limit
unfolding from_str_radix
from_str_radix-le radix limit [] n e = ground arith
from_str_radix-le radix limit (c ∷ []) n e =
    ground (arith, parse_digits-le radix limit 0 (c ∷ []) n (omega arith))
from_str_radix-le radix limit (c ∷ d ∷ cs) n e = ground (
  arith,
  parse_digits-le radix limit 0 (d ∷ cs) n (omega arith),
  parse_digits-le radix limit 0 (c ∷ d ∷ cs) n (omega arith),
)
