-- ===== src/Daemon/Tasks/Ticks.antt =====
-- The daemon's tasks together: any sequence of moves of the orchestrator, of the methods that have been
-- called and of the clipboard's loop.
use penguinsync.Base.{ℕ, zero, suc, Bytes, Str, Bool, List, [], ◌∷◌, ◌++◌, Option, none, some}
use penguinsync.Base.Time.{Instant}
use penguinsync.Daemon.Shared.{Shared, ListenerEvent}
use penguinsync.Daemon.Tasks.{
  Place, Call, opening_window, answering, revoking, Watch, advance, expire, proceed, notice,
  watch_on,
}

pub record System : Type 0 where
  pub shared : Shared
  pub place : Place
  pub calls : List Call
  pub watch : Watch

-- A method as it is called.
pub data Method : Type 0 where
  start_pairing : (random : Bytes) (now : Instant) → Method
  confirm_pairing : (device_id : Str) (accept : Bool) → Method
  unpair : (device_id : Str) → Method

abbrev pub entry : Method → Call
entry (start_pairing random now) = opening_window random now
entry (confirm_pairing device_id accept) = answering device_id accept
entry (unpair device_id) = revoking device_id

pub data Tick : Type 0 where
  -- a session's task puts an event on the listener's channel
  arrives : ListenerEvent → Tick
  orchestrates : Instant → Tick
  expires : Tick
  calls : Method → Tick
  -- the call with this number moves
  proceeds : ℕ → Tick
  changes : (mime : Str) (read : Option Bytes) → Tick
  watches : Tick

-- Whether the call goes on.
abbrev pub kept : Option Call → List Call → List Call
kept none rest = rest
kept (some c) rest = c ∷ rest

unfoldable pub proceed_nth : ℕ → Shared → List Call → Shared × List Call
proceed_nth n s [] = (s, [])
proceed_nth zero s (c ∷ rest) = let (s', c') = proceed s c in (s', kept c' rest)
proceed_nth (suc n) s (c ∷ rest) = let (s', rest') = proceed_nth n s rest in (s', c ∷ rest')

module _ (blake3 : Bytes → Bytes) where
  unfoldable pub step : System → Tick → System
  unfolding proceed_nth
  step t (arrives e) = record t { shared = record t.shared { inbox = t.shared.inbox ++ e ∷ [] } }
  step t (orchestrates now) =
      let (s, place) = advance t.shared t.place now in record t { shared = s; place = place }
  step t expires =
      let (s, place) = expire t.shared t.place t.shared.waiting in
      record t { shared = s; place = place }
  step t (calls m) = record t { calls = t.calls ++ entry m ∷ [] }
  step t (proceeds n) =
      let (s, rest) = proceed_nth n t.shared t.calls in record t { shared = s; calls = rest }
  step t (changes mime read) = record t { watch = notice blake3 t.watch mime read }
  step t watches =
      let (s, watch) = watch_on t.shared t.watch in record t { shared = s; watch = watch }

  unfoldable pub run : System → List Tick → System
  run t [] = t
  run t (x ∷ rest) = run (step t x) rest
