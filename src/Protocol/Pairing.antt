-- ===== src/Protocol/Pairing.antt =====
-- crates/protocol/src/pairing.rs: the single-use pairing token.
pub mod SingleUse
use penguinsync.Base.{ℕ, Bytes, Bool, true, false, leb, if◌then◌else◌, ite, ◌=?◌, bytes_key}
use penguinsync.Base.Result.{Result, ok, err}
use penguinsync.Base.Time.{Instant, Duration, from_secs, duration_since}

abbrev pub token_ttl : Duration
token_ttl = from_secs 60

pub record PairingToken : Type 0 where
  pub bytes : Bytes
  pub issued_at : Instant
  pub redeemed : Bool

pub data RedeemError : Type 0 where
  mismatch already_redeemed expired : RedeemError

unfoldable pub issue : Bytes → Instant → PairingToken
issue random now = record { bytes = random; issued_at = now; redeemed = false }

unfoldable pub is_expired : PairingToken → Instant → Bool
is_expired token now = leb token_ttl (duration_since now token.issued_at)

-- The token after the attempt, and what the attempt returned.
unfoldable pub redeem :
    PairingToken → Bytes → Instant → PairingToken × Result RedeemError (Unit {0})
unfolding is_expired
redeem token presented now =
    if token.redeemed
    then (token, err already_redeemed)
    else if is_expired token now
    then (token, err expired)
    else ite (presented =? token.bytes) (record token { redeemed = true }, ok tt)
        (token, err mismatch)
