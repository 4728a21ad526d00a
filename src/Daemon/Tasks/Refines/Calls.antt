-- ===== src/Daemon/Tasks/Refines/Calls.antt =====
-- A method of `Daemon1` as a sequence of its accesses.
use penguinsync.Base.{
  ℕ, ◌≡◌, refl, Bytes, Str, Bool, [], ◌∷◌, Option, none, some, arith, subst, sym, option-either,
  bytes_key, if-either, ◌==◌,
}
use penguinsync.Base.Time.{Instant}
use penguinsync.Protocol.Hex.{from_hex}
use penguinsync.Base.Map.{lookup, remove}
use penguinsync.Base.Result.{Result, ok, err}
use penguinsync.Net.Tls.{unpair as revoke}
use penguinsync.Daemon.Shared.{Shared, Waiting, persist_state}
use penguinsync.Daemon.Dbus.{open_pairing, resolve, answer, forget}
use penguinsync.Daemon.Dbus
use penguinsync.Daemon.Tasks.{
  Place, awaiting, answering, revoking, removing, rewriting, unregistering, watching, Call, proceed,
}
use penguinsync.Daemon.Tasks.Ticks.{
  System, Tick, kept, Method, orchestrates, expires, calls, proceeds, watches, proceed_nth, step,
  run,
}
use penguinsync.Daemon.Tasks.Ticks
use penguinsync.Daemon.Tasks.Alone.Marking.{resting}
use penguinsync.Daemon.Tasks.Refines.Reach.{at_rest, Reaches, ticks, there}

answer-resting :
    (o : Option Waiting) (channel : ℕ) (accept : Bool)
    → resting (answer o channel accept) ≡ resting o
unfolding answer
answer-resting none channel accept = refl
answer-resting (some w) channel accept =
    if-either (λ o. resting o ≡ awaiting) (w.channel == channel)
      (some (record w { answer = some accept })) (some w) refl refl

module _ (blake3 : Bytes → Bytes) where
  -- A single call under way, which makes its next access.
  proceeding :
      (s : Shared) (p : Place) (c : Call) (r : Shared × Option Call) {u : System}
      → proceed s c ≡ r
      → Reaches blake3 (record { shared = r.0; place = p; calls = kept r.1 []; watch = watching }) u
      → Reaches blake3 (record { shared = s; place = p; calls = c ∷ []; watch = watching }) u
  unfolding step proceed_nth
  proceeding s p c r {u} e h = ticks blake3 _ (proceeds 0) (
      subst
        (λ q.
          Reaches blake3 (record { shared = q.0; place = p; calls = kept q.1 []; watch = watching })
            u)
        (sym e) h)

  -- It has returned, and the wait is as it was.
  returned :
      (s s' : Shared)
      → resting s'.waiting ≡ resting s.waiting
      → Reaches blake3
          (record { shared = s'; place = resting s.waiting; calls = []; watch = watching })
          (at_rest s')
  returned s s' e =
      subst
        (λ p.
          Reaches blake3 (record { shared = s'; place = p; calls = []; watch = watching })
            (at_rest s'))
        e (there blake3 (at_rest s'))

  pub open_pairing-Reaches :
      (s : Shared) (random : Bytes) (now : Instant)
      → Reaches blake3 (at_rest s) (at_rest (open_pairing s random now))
  unfolding step proceed open_pairing
  open_pairing-Reaches s random now =
      ticks blake3 (at_rest s) (calls (Ticks.start_pairing random now)) (
        proceeding s (resting s.waiting) _ _ refl
          (proceeding _ (resting s.waiting) _ _ refl (returned s (open_pairing s random now) refl)))

  resolve-resting :
      (s : Shared) (id : Bytes) (accept : Bool)
      → resting (resolve s id accept).waiting ≡ resting s.waiting
  unfolding resolve
  resolve-resting s id accept =
      option-either (λ s'. resting s'.waiting ≡ resting s.waiting)
        (lookup id s.pending_confirmations) s
        (λ channel. record s {
          pending_confirmations = remove id s.pending_confirmations;
          waiting = answer s.waiting channel accept;
        })
        refl (λ channel. answer-resting s.waiting channel accept)

  pub confirm-Reaches :
      (s : Shared) (hex : Str) (accept : Bool)
      → Reaches blake3 (at_rest s) (at_rest (Dbus.confirm_pairing s hex accept).0)
  unfolding step proceed Dbus.confirm_pairing
  confirm-Reaches s hex accept =
      ticks blake3 (at_rest s) (calls (Ticks.confirm_pairing hex accept)) (
        proceeding s (resting s.waiting) (answering hex accept) (proceed s (answering hex accept))
          refl (by_id (from_hex hex)))
    where
      by_id :
          (o : Option Bytes)
          → let r : Shared × Option Call = elim o [
            | none ↦ (s, none)
            | some id ↦ (resolve s id accept, none)
          ] in
            let q : Shared × Result Dbus.FdoError (Unit {0}) = elim o [
              | none ↦ (s, err Dbus.invalid_args)
              | some id ↦ (resolve s id accept, ok tt)
            ] in
            Reaches blake3
              (record {
                shared = r.0;
                place = resting s.waiting;
                calls = kept r.1 [];
                watch = watching;
              })
              (at_rest q.0)
      by_id none = there blake3 (at_rest s)
      by_id (some id) = returned s (resolve s id accept) (resolve-resting s id accept)

  forget-resting : (s : Shared) (id : Bytes) → resting (forget s id).waiting ≡ resting s.waiting
  unfolding forget persist_state
  forget-resting s id = ground arith

  pub unpair-Reaches :
      (s : Shared) (hex : Str) → Reaches blake3 (at_rest s) (at_rest (Dbus.unpair s hex).0)
  unfolding step proceed Dbus.unpair forget
  unpair-Reaches s hex = ticks blake3 (at_rest s) (calls (Ticks.unpair hex)) (
      proceeding s (resting s.waiting) (revoking hex) (proceed s (revoking hex)) refl
        (by_id (from_hex hex)))
    where
      by_id :
          (o : Option Bytes)
          → let r : Shared × Option Call = elim o [
            | none ↦ (s, none)
            | some id ↦ (record s { trust = revoke s.trust id }, some (removing id))
          ] in
            let q : Shared × Result Dbus.FdoError (Unit {0}) = elim o [
              | none ↦ (s, err Dbus.invalid_args)
              | some id ↦ (forget s id, ok tt)
            ] in
            Reaches blake3
              (record {
                shared = r.0;
                place = resting s.waiting;
                calls = kept r.1 [];
                watch = watching;
              })
              (at_rest q.0)
      by_id none = there blake3 (at_rest s)
      by_id (some id) = proceeding _ _ (removing id) _ refl (
          proceeding _ _ (rewriting id) _ refl (
            proceeding _ _ (unregistering id) _ refl
              (returned s (forget s id) (forget-resting s id))))
