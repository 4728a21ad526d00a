-- ===== src/Daemon/World.antt =====
-- The daemon as a whole: its orchestrator, which handles one listener event at a time and stands still
-- while it waits for a human, and the D-Bus methods and the clipboard, which do not.
pub mod Approval
pub mod Core
pub mod Moves
pub mod Requests
pub mod Kept
pub mod Restart
pub mod Pairing
use penguinsync.Base.{ℕ, Bytes, Str, Bool, true, false, List, [], ◌∷◌, ◌++◌, Option, none, some}
use penguinsync.Base.Time.{Instant}
use penguinsync.Daemon.Shared.{Shared, ListenerEvent, Waiting}
use penguinsync.Daemon.Dbus.{open_pairing, confirm_pairing, unpair}
use penguinsync.Daemon.Orchestrator.{handle_event, confirmed}
use penguinsync.Daemon.Clipboard.{watch_round}

pub data Input : Type 0 where
  -- a session's task puts an event on the listener's channel
  arrives : ListenerEvent → Input
  -- the orchestrator takes its turn
  turn : Instant → Input
  -- `await_confirmation` runs out of time
  timeout : Input
  start_pairing : (random : Bytes) (now : Instant) → Input
  confirm : (device_id : Str) (accept : Bool) → Input
  unpair_device : (device_id : Str) → Input
  -- the desktop's clipboard changes
  changes : (mime : Str) (read : Option Bytes) → Input

-- The orchestrator that waits goes on once an answer has come; otherwise it takes the next event.
unfoldable pub take_turn : Shared → Option Waiting → List ListenerEvent → Instant → Shared
take_turn s none [] now = s
take_turn s none (e ∷ rest) now = handle_event (record s { inbox = rest }) e now
take_turn s (some w) events now = elim w.answer [ none ↦ s | some accept ↦ confirmed s w accept ]

-- An answer that has come in counts also when the time is up.
unfoldable pub time_out : Shared → Option Waiting → Shared
time_out s none = s
time_out s (some w) = elim w.answer [
  | none ↦ confirmed s w false
  | some accept ↦ confirmed s w accept
]

module _ (blake3 : Bytes → Bytes) where
  unfoldable pub step : Shared → Input → Shared
  unfolding take_turn time_out
  step s (arrives e) = record s { inbox = s.inbox ++ e ∷ [] }
  step s (turn now) = take_turn s s.waiting s.inbox now
  step s timeout = time_out s s.waiting
  step s (start_pairing random now) = open_pairing s random now
  step s (confirm device_id accept) = (confirm_pairing s device_id accept).0
  step s (unpair_device device_id) = (unpair s device_id).0
  step s (changes mime read) = watch_round blake3 s mime read

  unfoldable pub run : Shared → List Input → Shared
  run s [] = s
  run s (i ∷ rest) = run (step s i) rest
