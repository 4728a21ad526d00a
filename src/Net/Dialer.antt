-- ===== src/Net/Dialer.antt =====
-- crates/net/src/reconnect.rs: the loop that dials, drains the session, and backs off.
pub mod Schedule
use penguinsync.Base.{
  ℕ, ◌+◌, min, Bytes, Bool, true, false, List, [], ◌∷◌, ◌++◌, Option, none, some, map,
  if◌then◌else◌,
}
use penguinsync.Base.Time.{Duration}
use penguinsync.Protocol.Backoff.{delay, u32_max}
use penguinsync.Net.Session.{SessionEvent, drain}

-- A session is told apart by a number.
pub data DialerEvent : Type 0 where
  connected : ℕ → DialerEvent
  session : SessionEvent → DialerEvent
  reconnecting : (attempt : ℕ) (delay : Duration) → DialerEvent

-- What one round of the loop meets: what `connect_once` gives, a session with the events that it will
-- queue, and whether the receiver of `events` is there at each of the three places that ask.
pub record Round : Type 0 where
  pub outcome : Option (ℕ × List SessionEvent)
  pub at_connected : Bool
  pub at_check : Bool
  pub at_reconnecting : Bool

-- The loop's variables, and the tokens that the calls of `connect_once` were given.
pub record Dialer : Type 0 where
  pub attempt : ℕ
  pub pairing_token : Option Bytes
  pub presented : List (Option Bytes)
  pub returned : Bool

unfoldable pub start : Option Bytes → Dialer
start token = record { attempt = 0; pairing_token = token; presented = []; returned = false }

abbrev stop : Dialer → Dialer
stop d = record d { returned = true }

-- Below the `match`.
unfoldable pub back_off : Dialer → Round → Dialer × List DialerEvent
back_off d r =
    if r.at_check
    then if r.at_reconnecting
      then (
        record d { attempt = min (d.attempt + 1) u32_max },
        reconnecting d.attempt (delay d.attempt) ∷ [],
      )
      else (stop d, [])
    else (stop d, [])

-- `pairing_token.take()`
abbrev pub take_token : Dialer → Dialer
take_token d = record d { presented = d.presented ++ d.pairing_token ∷ []; pairing_token = none }

unfoldable pub on_outcome :
    Dialer → Round → Option (ℕ × List SessionEvent) → Dialer × List DialerEvent
on_outcome d r none = back_off d r
on_outcome d r (some (handle, queue)) =
    let d0 = record d { attempt = 0 } in
    let (d', later) = back_off d0 r in
    if r.at_connected
    then (d', connected handle ∷ map session (drain queue).0 ++ later)
    else (stop d0, [])

-- One round: the variables after it and the events sent.
unfoldable pub round : Dialer → Round → Dialer × List DialerEvent
round d r = on_outcome (take_token d) r r.outcome

unfoldable pub dial : Dialer → List Round → Dialer × List DialerEvent
dial d [] = (d, [])
dial d (r ∷ rest) =
    let (d1, events) = round d r in
    let (d2, later) = dial d1 rest in if d1.returned then (d1, events) else (d2, events ++ later)
