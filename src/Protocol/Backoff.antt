-- ===== src/Protocol/Backoff.antt =====
-- crates/protocol/src/backoff.rs: the delay before a reconnect attempt.
use native.Mathlib.Nat.{pow-le-pow_right}
use penguinsync.Base.{
  ℕ, ◌+◌, ◌-◌, ◌*◌, ◌^◌, ◌%◌, ◌≤◌, ◌≡◌, min, Option, none, some, arith, ltb, if◌then◌else◌,
}
use penguinsync.Base.Time.{Duration, from_secs}

abbrev pub base : Duration
base = from_secs 1

abbrev cap : Duration
cap = from_secs 60

abbrev pub u32_max : ℕ
u32_max = 2 ^ 32 - 1

-- `Duration::MAX`, in nanoseconds.
abbrev duration_max : Duration
duration_max = from_secs (2 ^ 64 - 1) + 999999999

-- `x.checked_shl(n)` of a `u32`
checked_shl : ℕ → ℕ → Option ℕ
checked_shl x n = if ltb n 32 then some (x * 2 ^ n % 2 ^ 32) else none

-- `d.checked_mul(n)`
checked_mul : Duration → ℕ → Option Duration
checked_mul d n = if ltb duration_max (d * n) then none else some (d * n)

abbrev unwrap_or : Option ℕ → ℕ → ℕ
unwrap_or none d = d
unwrap_or (some a) d = a

unfoldable pub delay : ℕ → Duration
unfolding checked_shl checked_mul
delay attempt =
    let factor = unwrap_or (checked_shl 1 attempt) u32_max in
    min (unwrap_or (checked_mul base factor) cap) cap

pow_mono : (m n : ℕ) → m ≤ n → 2 ^ m ≤ 2 ^ n
pow_mono m n h = pow-le-pow_right (omega arith) h

-- The delay before attempt `attempt` is 2 ^ attempt seconds, and at most a minute, whatever the
-- attempt: neither the shift nor the product ever wraps.
delay-eq : (attempt : ℕ) → delay attempt ≡ min (2 ^ attempt * base) cap
unfolding delay
delay-eq attempt = ground (arith, pow_mono attempt 31, pow_mono 32 attempt)

-- So the schedule never falls, and starts at a second.
delay_mono : (m n : ℕ) → m ≤ n → (delay m ≤ delay n) × (base ≤ delay m) × (delay m ≤ cap)
delay_mono m n h = omega (arith, delay-eq m, delay-eq n, pow_mono m n h, pow_mono 0 m (omega arith))
