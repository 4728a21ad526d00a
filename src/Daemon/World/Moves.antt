-- ===== src/Daemon/World/Moves.antt =====
-- The steps of the daemon as a relation on the pairings and the confirmation that is waited for.
use penguinsync.Base.{
  ◌≡◌, inl, inr, refl, Bytes, Str, Bool, true, false, List, [], ◌∷◌, ◌++◌, Option, none, some,
  arith, Option-cases,
}
use penguinsync.Base.Time.{Instant}
use penguinsync.Protocol.Hex.{from_hex}
use penguinsync.Net.Tls.{open_pairing_window}
use penguinsync.Daemon.Shared.{Shared, ListenerEvent, Waiting}
use penguinsync.Daemon.Dbus.{open_pairing, confirm_pairing, unpair}
use penguinsync.Daemon.Orchestrator.{confirmed}
use penguinsync.Daemon.World.{
  Input, arrives, turn, timeout, start_pairing, confirm, unpair_device, changes, take_turn,
  time_out, step,
}
use penguinsync.Daemon.World.Core.{
  Core, core, IsAsked, settled, resolved, forgotten, handle_event-core, core-watch_round,
  core-confirmed, core-forget, core-resolve,
}

-- A step from `c` to `c'`: nothing happens to them, an event comes in or is taken, a handshake asks
-- for a confirmation, the wait ends, a human answers, or a device is unpaired.
pub data Move (c : Core) (i : Input) (c' : Core) : Type 0 where
  stays : c' ≡ c → Move c i c'
  hears :
      (e : ListenerEvent)
      → i ≡ arrives e
      → c' ≡ record c { inbox = c.inbox ++ e ∷ [] }
      → Move c i c'
  takes :
      (e : ListenerEvent) (rest : List ListenerEvent)
      → c.inbox ≡ e ∷ rest
      → c' ≡ record c { inbox = rest }
      → Move c i c'
  asks :
      (e : ListenerEvent) (rest : List ListenerEvent)
      → c.inbox ≡ e ∷ rest
      → IsAsked (record c { inbox = rest }) e c'
      → Move c i c'
  settles :
      (w : Waiting) (accept : Bool)
      → c.waiting ≡ some w
      → (accept ≡ true → w.answer ≡ some true)
      → c' ≡ settled c w accept
      → Move c i c'
  answers :
      (device_id : Str) (accept : Bool) (id : Bytes)
      → i ≡ confirm device_id accept
      → from_hex device_id ≡ some id
      → c' ≡ resolved c id accept
      → Move c i c'
  forgets :
      (device_id : Str) (id : Bytes)
      → i ≡ unpair_device device_id
      → from_hex device_id ≡ some id
      → c' ≡ forgotten c id
      → Move c i c'

turn-Move :
    (s : Shared) (o : Option Waiting) (q : List ListenerEvent) (now : Instant) (i : Input)
    → s.waiting ≡ o
    → s.inbox ≡ q
    → Move (core s) i (core (take_turn s o q now))
unfolding take_turn
turn-Move s none [] now i h hq = stays refl
turn-Move s none (e ∷ rest) now i h hq =
    elim (handle_event-core (record s { inbox = rest }) e now) [
      | inl same ↦ takes e rest hq same
      | inr asked ↦ asks e rest hq asked
    ]
turn-Move s (some w) q now i h hq = by_answer w.answer refl
  where
    by_answer :
        (a : Option Bool)
        → w.answer ≡ a
        → Move (core s) i (core (elim a [ none ↦ s | some accept ↦ confirmed s w accept ]))
    by_answer none e = stays refl
    by_answer (some accept) e = settles w accept h (λ t. cc) (core-confirmed s w accept)

timeout-Move :
    (s : Shared) (o : Option Waiting) (i : Input)
    → s.waiting ≡ o
    → Move (core s) i (core (time_out s o))
unfolding time_out
timeout-Move s none i h = stays refl
timeout-Move s (some w) i h = by_answer w.answer refl
  where
    by_answer :
        (a : Option Bool)
        → w.answer ≡ a
        → Move
            (core s)
            i
            (core (elim a [ none ↦ confirmed s w false | some accept ↦ confirmed s w accept ]))
    by_answer none e = settles w false h (λ t. absurd (cc)) (core-confirmed s w false)
    by_answer (some accept) e = settles w accept h (λ t. cc) (core-confirmed s w accept)

confirm-Move :
    (s : Shared) (device_id : Str) (accept : Bool)
    → Move (core s) (confirm device_id accept) (core (confirm_pairing s device_id accept).0)
unfolding confirm_pairing
confirm-Move s device_id accept = elim (Option-cases (from_hex device_id)) [
  | inl e ↦ stays (ground arith)
  | inr (id, e) ↦ answers device_id accept id refl e (ground (arith, core-resolve s id accept))
]

unpair-Move :
    (s : Shared) (device_id : Str)
    → Move (core s) (unpair_device device_id) (core (unpair s device_id).0)
unfolding unpair
unpair-Move s device_id = elim (Option-cases (from_hex device_id)) [
  | inl e ↦ stays (ground arith)
  | inr (id, e) ↦ forgets device_id id refl e (ground (arith, core-forget s id))
]

-- Every input is such a step.
pub step-Move :
    (blake3 : Bytes → Bytes) (s : Shared) (i : Input) → Move (core s) i (core (step blake3 s i))
unfolding step open_pairing open_pairing_window
step-Move blake3 s (arrives e) = hears e refl refl
step-Move blake3 s (turn now) = turn-Move s s.waiting s.inbox now (turn now) refl refl
step-Move blake3 s timeout = timeout-Move s s.waiting timeout refl
step-Move blake3 s (start_pairing random now) = stays refl
step-Move blake3 s (confirm device_id accept) = confirm-Move s device_id accept
step-Move blake3 s (unpair_device device_id) = unpair-Move s device_id
step-Move blake3 s (changes mime read) = stays (core-watch_round blake3 s mime read)
