-- ===== src/Daemon/Tasks/Refines.antt =====
-- The daemon whose handlers are one step each (`World`) against its tasks: its runs are those in which
-- no task moves while another is in the middle of a handler.
pub mod Reach
mod Turns
mod Calls
mod Changes
use penguinsync.Base.{
  ℕ, zero, suc, ◌≡◌, inl, inr, refl, Bytes, Str, Bool, true, false, List, [], ◌∷◌, ◌++◌, Option,
  none, some, arith, subst, sym, ap, ◌∙◌, Option-cases, replicate, option-either, ite, ◌=?◌,
  bytes_key, if◌then◌else◌, if-either, ◌==◌,
}
use penguinsync.Base.Time.{Instant}
use penguinsync.Protocol.Hex.{from_hex}
use penguinsync.Protocol.Clip.{Clip, ClipError, mime_text_plain}
use penguinsync.Protocol.Clip
use penguinsync.Base.Map.{lookup, remove}
use penguinsync.Base.Result.{Result, ok, err}
use penguinsync.Net.Tls.{unpair as revoke}
use penguinsync.Daemon.Shared.{Shared, ListenerEvent, Waiting, persist_state}
use penguinsync.Daemon.Clipboard.{watch_round, broadcast, send_all, should_broadcast, values}
use penguinsync.Daemon.Dbus.{open_pairing, resolve, answer, forget}
use penguinsync.Daemon.Dbus
use penguinsync.Daemon.Orchestrator.{confirmed}
use penguinsync.Daemon.World.{
  Input, arrives, turn, timeout, start_pairing, confirm, unpair_device, changes, take_turn,
  time_out,
}
use penguinsync.Daemon.World
use penguinsync.Daemon.Tasks.{
  Place, awaiting, answering, revoking, removing, rewriting, unregistering, Watch, watching,
  noticed, collecting, sending, Call, advance, begin, receive, resume, resumed, expire, proceed,
  notice, watch_on,
}
use penguinsync.Daemon.Tasks.Ticks.{
  System, Tick, kept, Method, orchestrates, expires, calls, proceeds, watches, proceed_nth, step,
  run,
}
use penguinsync.Daemon.Tasks.Ticks
use penguinsync.Daemon.Tasks.Alone.Marking.{resting, iterate, Rests}
use penguinsync.Daemon.Tasks.Alone.{handle_event-Rests, confirmed-Rests}
use penguinsync.Daemon.Tasks.Refines.Reach.{at_rest, run-append, Reaches, ticks, there}
use penguinsync.Daemon.Tasks.Refines.Turns.{turn-Reaches, timeout-Reaches}
use penguinsync.Daemon.Tasks.Refines.Calls.{open_pairing-Reaches, confirm-Reaches, unpair-Reaches}
use penguinsync.Daemon.Tasks.Refines.Changes.{changes-Reaches}

module _ (blake3 : Bytes → Bytes) where
  step-Reaches :
      (s : Shared) (i : Input) → Reaches blake3 (at_rest s) (at_rest (World.step blake3 s i))
  unfolding World.step step
  step-Reaches s (arrives e) =
      ticks blake3 (at_rest s) (Ticks.arrives e)
        (there blake3 (at_rest (record s { inbox = s.inbox ++ e ∷ [] })))
  step-Reaches s (turn now) = turn-Reaches blake3 s s.waiting s.inbox now refl refl
  step-Reaches s timeout = timeout-Reaches blake3 0 s s.waiting refl
  step-Reaches s (start_pairing random now) = open_pairing-Reaches blake3 s random now
  step-Reaches s (confirm hex accept) = confirm-Reaches blake3 s hex accept
  step-Reaches s (unpair_device hex) = unpair-Reaches blake3 s hex
  step-Reaches s (changes mime read) = changes-Reaches blake3 s mime read

  -- Every run of the daemon whose handlers are one step each is a run of its tasks: there is a
  -- sequence of their accesses that leads from the one state at rest to the other.
  run-refines :
      (s : Shared) (inputs : List Input)
      → (xs : List Tick) × (run blake3 (at_rest s) xs ≡ at_rest (World.run blake3 s inputs))
  unfolding World.run
  run-refines s [] = there blake3 (at_rest s)
  run-refines s (i ∷ rest) =
      let (xs, e) = step-Reaches s i in
      let (ys, e') = run-refines (World.step blake3 s i) rest in
      (xs ++ ys, run-append blake3 (at_rest s) xs ys ∙ ap (λ t. run blake3 t ys) e ∙ e')
