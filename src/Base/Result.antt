-- ===== src/Base/Result.antt =====
-- Rust's `Result`, with `?` as bind.
use mathlib.Core.Path.{◌≡◌, refl}
use mathlib.Core.Logic.{◌⊎◌, inl, inr}
use mathlib.Core.Option.{Option, none, some}

pub data Result (E A : Type 0) : Type 0 where
  ok : A → Result E A
  err : E → Result E A

-- The conversions of an option and of an error.
abbrev pub ok_or : {E A : Type 0} → Option A → E → Result E A
ok_or o missing = elim o [ none ↦ err missing | some value ↦ ok value ]

abbrev pub map_err : {D E A : Type 0} → (D → E) → Result D A → Result E A
map_err convert r = elim r [ ok value ↦ ok value | err cause ↦ err (convert cause) ]

infixl 5 ◌>>=◌
abbrev pub ◌>>=◌ : {E A B : Type 0} → Result E A → (A → Result E B) → Result E B
r >>= continue = elim r [ err cause ↦ err cause | ok value ↦ continue value ]

pub map_err-eq-ok :
    {D E A : Type 0} (convert : D → E) (r : Result D A) {value : A}
    → map_err convert r ≡ ok value
    → r ≡ ok value
map_err-eq-ok convert (err cause) p = cc
map_err-eq-ok convert (ok value) p = cc

-- A chain that succeeds has succeeded at its first step.
pub >>=-eq-ok :
    {E A B : Type 0} (r : Result E A) (continue : A → Result E B) {final : B}
    (p : r >>= continue ≡ ok final)
    → (value : A) × (r ≡ ok value) × (continue value ≡ ok final)
>>=-eq-ok (err cause) continue p = cc
>>=-eq-ok (ok value) continue p = (value, refl, p)

pub Result-cases :
    {E A : Type 0} (r : Result E A) → ((e : E) × (r ≡ err e)) ⊎ ((a : A) × (r ≡ ok a))
Result-cases (err e) = inl (e, refl)
Result-cases (ok a) = inr (a, refl)
