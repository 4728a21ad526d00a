-- ===== src/Daemon/Tasks/Refines/Turns.antt =====
-- A turn of the orchestrator, or the end of its wait, as a sequence of its accesses.
use penguinsync.Base.{
  ℕ, zero, suc, ◌≡◌, inl, inr, refl, Bytes, Bool, false, List, [], ◌∷◌, Option, none, some, subst,
  sym, ap, ◌∙◌, Option-cases, replicate, bytes_key,
}
use penguinsync.Base.Time.{Instant}
use penguinsync.Daemon.Shared.{Shared, ListenerEvent, Waiting}
use penguinsync.Daemon.Dbus.{answer}
use penguinsync.Daemon.Orchestrator.{confirmed}
use penguinsync.Daemon.World.{take_turn, time_out}
use penguinsync.Daemon.Tasks.{
  Place, awaiting, watching, advance, begin, receive, resume, resumed, expire,
}
use penguinsync.Daemon.Tasks.Ticks.{System, orchestrates, expires, step, run}
use penguinsync.Daemon.Tasks.Alone.Marking.{resting, iterate, Rests}
use penguinsync.Daemon.Tasks.Alone.{handle_event-Rests, confirmed-Rests}
use penguinsync.Daemon.Tasks.Refines.Reach.{at_rest, Reaches, ticks, there}

module _ (blake3 : Bytes → Bytes) where
  orchestrates-iterate :
      (now : Instant) (n : ℕ) (t : System)
      → let (s, place) = iterate now n t.shared t.place in
        run blake3 t (replicate n (orchestrates now)) ≡ record t { shared = s; place = place }
  unfolding run step iterate
  orchestrates-iterate now zero t = refl
  orchestrates-iterate now (suc n) t = orchestrates-iterate now n (step blake3 t (orchestrates now))

  Rests-Reaches :
      (now : Instant) (s : Shared) (p : Place) {s' : Shared}
      → Rests now s p s'
      → Reaches blake3 (record { shared = s; place = p; calls = []; watch = watching }) (at_rest s')
  Rests-Reaches now s p (n, e) = (
    replicate n (orchestrates now),
    orchestrates-iterate now n _
        ∙ ap (λ r. record { shared = r.0; place = r.1; calls = []; watch = watching }) e,
  )

  -- The orchestrator at rest moves, or its time is up.
  first_move :
      (now : Instant) (s : Shared) (r : Shared × Place) {u : System}
      → advance s (resting s.waiting) now ≡ r
      → Reaches blake3 (record { shared = r.0; place = r.1; calls = []; watch = watching }) u
      → Reaches blake3 (at_rest s) u
  unfolding step
  first_move now s r {u} e h = ticks blake3 (at_rest s) (orchestrates now) (
      subst
        (λ q. Reaches blake3 (record { shared = q.0; place = q.1; calls = []; watch = watching }) u)
        (sym e) h)

  first_expiry :
      (s : Shared) (r : Shared × Place) {u : System}
      → expire s (resting s.waiting) s.waiting ≡ r
      → Reaches blake3 (record { shared = r.0; place = r.1; calls = []; watch = watching }) u
      → Reaches blake3 (at_rest s) u
  unfolding step
  first_expiry s r {u} e h = ticks blake3 (at_rest s) expires (
      subst
        (λ q. Reaches blake3 (record { shared = q.0; place = q.1; calls = []; watch = watching }) u)
        (sym e) h)

  resumed-Reaches :
      (now : Instant) (s : Shared) (w : Waiting) (accept : Bool)
      → let (s', p') = resumed s w accept in
        Reaches blake3
          (record { shared = s'; place = p'; calls = []; watch = watching })
          (at_rest (confirmed s w accept))
  resumed-Reaches now s w accept =
      let (s', p') = resumed s w accept in Rests-Reaches now s' p' (confirmed-Rests now s w accept)

  pub turn-Reaches :
      (s : Shared) (o : Option Waiting) (q : List ListenerEvent) (now : Instant)
      → s.waiting ≡ o
      → s.inbox ≡ q
      → Reaches blake3 (at_rest s) (at_rest (take_turn s o q now))
  unfolding take_turn advance receive resume
  turn-Reaches s none [] now hw hq = there blake3 (at_rest s)
  turn-Reaches s none (e ∷ rest) now hw hq =
      let s' = record s { inbox = rest } in
      first_move now s (s', begin e) (ap (λ o. advance s (resting o) now) hw ∙ ap (receive s) hq)
        (Rests-Reaches now s' (begin e) (handle_event-Rests now s' e hw))
  turn-Reaches s (some w) q now hw hq = elim (Option-cases w.answer) [
    | inl silent ↦
        subst
          (λ a.
            Reaches blake3 (at_rest s)
              (at_rest (elim a [ none ↦ s | some accept ↦ confirmed s w accept ])))
          (sym silent) (there blake3 (at_rest s))
    | inr (accept, said) ↦
        subst
          (λ a.
            Reaches blake3 (at_rest s)
              (at_rest (elim a [ none ↦ s | some accept ↦ confirmed s w accept ])))
          (sym said)
          (first_move now s (resumed s w accept)
            (ap (λ o. advance s (resting o) now) hw
              ∙ ap (resume s) hw
              ∙ ap (λ a. elim a [ none ↦ (s, awaiting) | some answer ↦ resumed s w answer ]) said)
            (resumed-Reaches now s w accept))
  ]

  pub timeout-Reaches :
      (now : Instant) (s : Shared) (o : Option Waiting)
      → s.waiting ≡ o
      → Reaches blake3 (at_rest s) (at_rest (time_out s o))
  unfolding time_out expire
  timeout-Reaches now s none hw = there blake3 (at_rest s)
  timeout-Reaches now s (some w) hw = elim (Option-cases w.answer) [
    | inl silent ↦
        subst (λ a. Reaches blake3 (at_rest s) (at_rest (late a))) (sym silent)
          (first_expiry s (resumed s w false) (expired ∙ ap left silent)
            (resumed-Reaches now s w false))
    | inr (accept, said) ↦
        subst (λ a. Reaches blake3 (at_rest s) (at_rest (late a))) (sym said)
          (first_expiry s (resumed s w accept) (expired ∙ ap left said)
            (resumed-Reaches now s w accept))
  ]
    where
      late : Option Bool → Shared
      late a = elim a [ none ↦ confirmed s w false | some accept ↦ confirmed s w accept ]

      left : Option Bool → Shared × Place
      left a = elim a [ none ↦ resumed s w false | some accept ↦ resumed s w accept ]

      expired : expire s (resting s.waiting) s.waiting ≡ left w.answer
      expired = ap (λ o. expire s (resting o) o) hw
