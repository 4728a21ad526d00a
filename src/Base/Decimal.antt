-- ===== src/Base/Decimal.antt =====
-- `u16::to_string` and its parsing.
use penguinsync.Base.Tests.{ltb, if◌then◌else◌, Bool-cases, ltb→lt}
use mathlib.Core.Logic.{inl, inr}
use penguinsync.Base.Keys.{Str}
use penguinsync.Base.Text.{parse_digits, from_str_radix, to_digit}
use Prim.Native.Nat.{ℕ, zero, suc, ◌+◌, ◌*◌, ◌/◌, ◌%◌, ◌^◌, ◌≤◌, ◌<◌}
use mathlib.Core.Path.{◌≡◌, refl, ◌∙◌}
use mathlib.Core.Option.{Option, some}
use mathlib.Core.List.{[], ◌∷◌}
use native.Mathlib.Nat.{pow-suc}
use native.Mathlib.Omega.{arith}

abbrev pub u16_max : ℕ
u16_max = 65535

-- The digits of `n`, written in front of `tail` from the last one on.
unfoldable pub fill : ℕ → ℕ → Str → Str
fill zero n tail = tail
fill (suc digits) n tail =
    let rest = fill digits (n / 10) ((n % 10 + b'0') ∷ tail) in
    if ltb n 10 then (n + b'0') ∷ tail else rest

-- A `u16` has at most five digits.
unfoldable pub u16_to_string : ℕ → Str
u16_to_string n = fill 5 n []

-- A `usize` of 64 bits has at most twenty.
unfoldable pub usize_to_string : ℕ → Str
usize_to_string n = fill 20 n []

-- `parse::<u16>()`
unfoldable pub parse_u16 : Str → Option ℕ
parse_u16 s = from_str_radix 10 u16_max s

to_digit-decimal : (d : ℕ) → d < 10 → to_digit 10 (d + b'0') ≡ some d
unfolding to_digit
to_digit-decimal d h = ground arith

parse_digits-cons :
    (acc d n : ℕ) (s : Str)
    → d < 10
    → acc * 10 + d ≡ n
    → n ≤ u16_max
    → parse_digits 10 u16_max acc ((d + b'0') ∷ s) ≡ parse_digits 10 u16_max n s
unfolding parse_digits
parse_digits-cons acc d n s h e le = rw (← e) (ground (arith, to_digit-decimal d h))

parse_digits-fill :
    (digits n : ℕ) (tail : Str)
    → n < 10 ^ digits
    → n ≤ u16_max
    → parse_digits 10 u16_max 0 (fill digits n tail) ≡ parse_digits 10 u16_max n tail
unfolding fill
parse_digits-fill zero n tail h le = let e : n ≡ 0 = omega arith in rw e
parse_digits-fill (suc digits) n tail h le =
    let quotient : n / 10 < 10 ^ digits = omega (arith, pow-suc 10 digits) in
    let value : n / 10 * 10 + n % 10 ≡ n = omega arith in
    elim (Bool-cases (ltb n 10)) [
      | inl small ↦ rw small (parse_digits-cons 0 n n tail (ltb→lt n 10 small) (omega arith) le)
      | inr large ↦ rw large (
          parse_digits-fill digits (n / 10) ((n % 10 + b'0') ∷ tail) quotient (omega arith)
          ∙ parse_digits-cons (n / 10) (n % 10) n tail (omega arith) value le)
    ]

-- A text that begins with a decimal digit has no sign.
abbrev StartsDigit : Str → Type 0
StartsDigit [] = ⊥
StartsDigit (c ∷ s) = b'0' ≤ c

fill-StartsDigit :
    (digits n : ℕ) (tail : Str)
    → n < 10 ^ digits
    → (n ≡ 0 → StartsDigit tail)
    → StartsDigit (fill digits n tail)
unfolding fill
fill-StartsDigit zero n tail h t = t (omega arith)
fill-StartsDigit (suc digits) n tail h t =
    let quotient : n / 10 < 10 ^ digits = omega (arith, pow-suc 10 digits) in
    ground
      (arith, fill-StartsDigit digits (n / 10) ((n % 10 + b'0') ∷ tail) quotient (λ _. omega arith))

from_str_radix-StartsDigit :
    (s : Str) → StartsDigit s → from_str_radix 10 u16_max s ≡ parse_digits 10 u16_max 0 s
unfolding from_str_radix
from_str_radix-StartsDigit [] h = absurd h
from_str_radix-StartsDigit (c ∷ []) h = ground arith
from_str_radix-StartsDigit (c ∷ d ∷ s) h = ground arith

-- A 16-bit number that was printed is parsed back.
pub parse_u16-to_string : (n : ℕ) → n ≤ u16_max → parse_u16 (u16_to_string n) ≡ some n
unfolding parse_u16 u16_to_string
parse_u16-to_string zero h = unfold fill from_str_radix parse_digits to_digit in refl
parse_u16-to_string (suc n) h =
    from_str_radix-StartsDigit _
      (fill-StartsDigit 5 (suc n) [] (omega arith) (λ e. absurd (omega (arith, e))))
    ∙ parse_digits-fill 5 (suc n) [] (omega arith) h
    ∙ unfold parse_digits in refl
