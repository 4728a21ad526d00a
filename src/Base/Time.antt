-- ===== src/Base/Time.antt =====
-- `Instant` and `Duration` as numbers of nanoseconds; the difference of two instants stops at 0, as
-- `duration_since` does.
use Prim.Native.Nat.{ℕ, ◌*◌, ◌-◌}

abbrev pub Instant : Type 0
Instant = ℕ

abbrev pub Duration : Type 0
Duration = ℕ

abbrev pub from_secs : ℕ → Duration
from_secs n = n * 1000000000

abbrev pub duration_since : Instant → Instant → Duration
duration_since now earlier = now - earlier
