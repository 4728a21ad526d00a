-- ===== src/Cli/Tui/Running.antt =====
-- crates/cli/src/tui.rs: the loop of the interface. Which branch of its `select!` is next, and what
-- that branch meets, is an argument; the loop goes on until a key ends it.
pub mod Answers
pub mod Leaving
use penguinsync.Base.{
  ◌≡◌, Str, Bool, true, false, List, [], ◌∷◌, ◌++◌, Option, none, some, if◌then◌else◌,
}
use penguinsync.Base.Result.{Result, ok, err, ◌>>=◌}
use penguinsync.Base.Time.{Instant}
use penguinsync.Cli.Tui.{
  App, DeviceInfo, PendingConfirmation, Daemon, DaemonCall, KeyCode, Handled, new, handle_key,
  on_refresh, on_pairing_requested,
}

pub data Happened : Type 0 where
  -- a key is pressed
  key_press : KeyCode → Daemon → Instant → Happened
  -- any other event of the terminal
  other_input : Happened
  -- the timer, with what `list_devices` gives
  tick : Result Str (List DeviceInfo) → Daemon → Instant → Happened
  -- the signal `PairingRequested`; `none` where its arguments cannot be read
  asked : Option PendingConfirmation → Happened

abbrev goes_on : App → List DaemonCall → Handled
goes_on app calls = record { app = app; running = true; calls = calls }

unfoldable pub round : App → Happened → Handled
round app (key_press code daemon now) = handle_key app daemon code now
round app other_input = goes_on app []
round app (tick listed daemon now) =
    let (app', calls) = on_refresh app daemon listed now in goes_on app' calls
round app (asked none) = goes_on app []
round app (asked (some c)) = goes_on (on_pairing_requested app c) []

-- The calls come in the order of the rounds.
unfoldable pub loop : App → List Happened → Handled
unfolding round
loop app [] = goes_on app []
loop app (h ∷ rest) =
    let now = round app h in
    let later = loop now.app rest in
    if now.running then record later { calls = now.calls ++ later.calls } else now

-- What the interface meets before its loop.
pub record Opening : Type 0 where
  pub proxy : Result Str (Unit {0})
  pub subscribed : Result Str (Unit {0})
  pub terminal : Result Str (Unit {0})
  pub listed : Result Str (List DeviceInfo)

unfoldable pub unwrap_devices : Result Str (List DeviceInfo) → List DeviceInfo
unwrap_devices (ok devices) = devices
unwrap_devices (err e) = []

unfoldable pub run : Opening → List Happened → Result Str Handled
unfolding loop unwrap_devices
run opening events = opening.proxy >>= λ daemon. opening.subscribed >>= λ requests.
    opening.terminal >>= λ terminal.
    ok (loop (record new { devices = unwrap_devices opening.listed }) events)
