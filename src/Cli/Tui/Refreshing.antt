-- ===== src/Cli/Tui/Refreshing.antt =====
-- The pairing code on screen against the daemon's token.
use penguinsync.Base.{◌≤◌, ◌≡◌, ◌≢◌, Bytes, Bool, true, false, arith}
use penguinsync.Base.Result.{ok}
use penguinsync.Base.Time.{Instant}
use penguinsync.Protocol.Pairing.{PairingToken, redeem}
use penguinsync.Cli.Tui.{should_regenerate, remaining_secs}

-- The code is renewed only when the countdown stands at 0, and only when the token behind it, which
-- the daemon issued no later than the code was shown, can no longer be redeemed.
should_regenerate-late :
    (issued_at now : Instant) (confirmation_open : Bool) (token : PairingToken) (presented : Bytes)
    → token.issued_at ≤ issued_at
    → should_regenerate issued_at now confirmation_open ≡ true
    → (remaining_secs issued_at now ≡ 0)
      × (confirmation_open ≡ false)
      × ((redeem token presented now).1 ≢ ok tt)
unfolding should_regenerate remaining_secs redeem
should_regenerate-late issued_at now confirmation_open token presented h r =
    (ground arith, ground arith, λ e. ground arith)
