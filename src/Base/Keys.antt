-- ===== src/Base/Keys.antt =====
-- Types whose equality is decided, as instances, and bytes and texts as lists of numbers.
use Prim.Native.Nat.{ℕ, ◌<◌}
use Prim.Native.Char.{code}
use Prim.Native.String.{String}
use mathlib.Core.Path.{◌≡◌, refl}
use mathlib.Core.List.{List, [], ◌∷◌}
use native.Mathlib.Decide.{ℕ_discrete}
use penguinsync.Base.Lists.{length, All}

pub record Key (K : Type 0) : Type 0 where
  pub decide : Discrete K

-- Rust's `==` on keys, as a decision.
infix 50 ◌=?◌
abbrev pub ◌=?◌ : {K : Type 0} ⦃k : Key K⦄ (a b : K) → Dec (a ≡ b)
◌=?◌ ⦃k⦄ a b = k.decide a b

-- Bytes are numbers below 256; a Rust `String` is its UTF-8 bytes.
abbrev pub Bytes : Type 0
Bytes = List ℕ

abbrev pub Str : Type 0
Str = List ℕ

abbrev pub IsByte : ℕ → Type 0
IsByte b = b < 256

-- A fixed array `[u8; n]`.
abbrev pub IsArray : ℕ → Bytes → Type 0
IsArray n bs = (length bs ≡ n) × All IsByte bs

-- The bytes of an ASCII literal.
abbrev pub str : String → Str
str String.[] = []
str (String.◌∷◌ c s) = code c ∷ str s

unfoldable pub bytes_discrete : Discrete Bytes
unfolding ℕ_discrete
bytes_discrete [] [] = yes refl
bytes_discrete [] (y ∷ ys) = no (λ e. cc)
bytes_discrete (x ∷ xs) [] = no (λ e. cc)
bytes_discrete (x ∷ xs) (y ∷ ys) = elim (ℕ_discrete x y) [
  | yes p ↦ elim (bytes_discrete xs ys) [ yes q ↦ yes (cc) | no q ↦ no (λ e. q (cc)) ]
  | no p ↦ no (λ e. p (cc))
]

instance abbrev pub bytes_key : Key Bytes
bytes_key = record { decide = bytes_discrete }

instance abbrev pub nat_key : Key ℕ
nat_key = record { decide = ℕ_discrete }
