-- ===== src/Cli/Tui/Running/Answers.antt =====
-- The answers that a whole run gives against the requests that it saw.
use penguinsync.Base.{
  ◌≡◌, ◌⊎◌, refl, ap, sym, subst, Str, List, [], ◌∷◌, ◌++◌, none, some, arith, Option-cases, inl,
  inr, if-either,
}
use penguinsync.Base.Result.{Result, ok, Result-cases}
use penguinsync.Base.Time.{Instant}
use penguinsync.Cli.Tui.{
  App, DeviceInfo, Daemon, DaemonCall, start_pairing_call, confirm_pairing_call, unpair_call,
  KeyCode, Handled, new, handle_key, answer_key, plain_key, press_p, press_u, on_refresh,
  regenerate, on_pairing_requested,
}
use penguinsync.Cli.Tui.Running.{
  Happened, key_press, other_input, tick, asked, round, loop, Opening, run, unwrap_devices,
}

-- The devices that the calls answer, and those that the signals name, in their order.
unfoldable pub answered : List DaemonCall → List Str
answered [] = []
answered (confirm_pairing_call id accept ∷ rest) = id ∷ answered rest
answered (start_pairing_call ∷ rest) = answered rest
answered (unpair_call id ∷ rest) = answered rest

unfoldable pub requested : List Happened → List Str
requested [] = []
requested (asked (some c) ∷ rest) = c.device_id ∷ requested rest
requested (asked none ∷ rest) = requested rest
requested (key_press code daemon now ∷ rest) = requested rest
requested (other_input ∷ rest) = requested rest
requested (tick listed daemon now ∷ rest) = requested rest

-- The first list is the second with some elements left out.
pub data Within : List Str → List Str → Type 0 where
  nothing : {ys : List Str} → Within [] ys
  kept : {x : Str} {xs ys : List Str} → Within xs ys → Within (x ∷ xs) (x ∷ ys)
  left_out : {y : Str} {xs ys : List Str} → Within xs ys → Within xs (y ∷ ys)

unfoldable pub pending : App → List Str
pending app = elim app.confirmation [ none ↦ [] | some c ↦ c.device_id ∷ [] ]

answered-append : (xs ys : List DaemonCall) → answered (xs ++ ys) ≡ answered xs ++ answered ys
unfolding answered
answered-append [] ys = refl
answered-append (confirm_pairing_call id accept ∷ rest) ys = ap (◌∷◌ id) (answered-append rest ys)
answered-append (start_pairing_call ∷ rest) ys = answered-append rest ys
answered-append (unpair_call id ∷ rest) ys = answered-append rest ys

-- A key answers nothing and leaves the confirmation, or answers it and takes it from the screen.
handle_key-pending :
    (app : App) (daemon : Daemon) (code : KeyCode) (now : Instant)
    → let h = handle_key app daemon code now in
      ((answered h.calls ≡ []) × (pending h.app ≡ pending app))
      ⊎ ((answered h.calls ≡ pending app) × (pending h.app ≡ []))
unfolding handle_key answer_key plain_key press_p press_u pending answered
handle_key-pending app daemon code now = elim (Option-cases app.confirmation) [
  | inl quiet ↦ inl (ground arith, ground arith)
  | inr (c, shown) ↦ ground arith
]

on_refresh-pending :
    (app : App) (daemon : Daemon) (listed : Result Str (List DeviceInfo)) (now : Instant)
    → let r = on_refresh app daemon listed now in (answered r.1 ≡ []) × (pending r.0 ≡ pending app)
unfolding on_refresh regenerate pending answered
on_refresh-pending app daemon listed now = (ground arith, ground arith)

Within-behind : (zs : List Str) {xs ys : List Str} → Within xs ys → Within xs (zs ++ ys)
Within-behind [] h = h
Within-behind (z ∷ zs) h = left_out (Within-behind zs h)

Within-after : (zs : List Str) {xs ys : List Str} → Within xs ys → Within (zs ++ xs) (zs ++ ys)
Within-after [] h = h
Within-after (z ∷ zs) h = kept (Within-after zs h)

Within-front : (zs ys : List Str) → Within zs (zs ++ ys)
Within-front [] ys = nothing
Within-front (z ∷ zs) ys = kept (Within-front zs ys)

-- The calls of a round before those of the later rounds.
Within-calls :
    (calls later : List DaemonCall) {zs : List Str}
    → Within (answered calls ++ answered later) zs
    → Within (answered (calls ++ later)) zs
Within-calls calls later {zs} h = subst (λ xs. Within xs zs) (sym (answered-append calls later)) h

-- The answers of a key before those that follow it.
key-Within :
    (now shown shown' later ys : List Str)
    → ((now ≡ []) × (shown' ≡ shown)) ⊎ ((now ≡ shown) × (shown' ≡ []))
    → Within later (shown' ++ ys)
    → Within (now ++ later) (shown ++ ys) × Within now (shown ++ ys)
key-Within now shown shown' later ys (inl (quiet, same)) h = (
  subst (λ xs. Within (xs ++ later) (shown ++ ys)) (sym quiet)
      (subst (λ xs. Within later (xs ++ ys)) same h),
  subst (λ xs. Within xs (shown ++ ys)) (sym quiet) nothing,
)
key-Within now shown shown' later ys (inr (given, cleared)) h = (
  subst (λ xs. Within (xs ++ later) (shown ++ ys)) (sym given)
      (Within-after shown (subst (λ xs. Within later (xs ++ ys)) cleared h)),
  subst (λ xs. Within xs (shown ++ ys)) (sym given) (Within-front shown ys),
)

-- A run answers only devices that were on screen or that a signal named, each request at most once
-- and in the order of the requests.
loop-Within :
    (app : App) (events : List Happened)
    → Within (answered (loop app events).calls) (pending app ++ requested events)
unfolding loop round requested answered pending on_pairing_requested
loop-Within app [] = nothing
loop-Within app (key_press code daemon now ∷ rest) =
    let h = handle_key app daemon code now in
    let both =
      key-Within (answered h.calls) (pending app) (pending h.app) (answered (loop h.app rest).calls)
        (requested rest) (handle_key-pending app daemon code now) (loop-Within h.app rest) in
    if-either (λ r. Within (answered r.calls) (pending app ++ requested rest)) h.running
      (record (loop h.app rest) { calls = h.calls ++ (loop h.app rest).calls }) h
      (Within-calls h.calls (loop h.app rest).calls both.0) both.1
loop-Within app (other_input ∷ rest) = loop-Within app rest
loop-Within app (tick listed daemon now ∷ rest) =
    let (app', calls) = on_refresh app daemon listed now in
    let (quiet, same) = on_refresh-pending app daemon listed now in
    Within-calls calls (loop app' rest).calls (
      subst (λ xs. Within (xs ++ answered (loop app' rest).calls) (pending app ++ requested rest))
        (sym quiet)
        (subst (λ xs. Within (answered (loop app' rest).calls) (xs ++ requested rest)) same
          (loop-Within app' rest)))
loop-Within app (asked none ∷ rest) = loop-Within app rest
loop-Within app (asked (some c) ∷ rest) =
    Within-behind (pending app) (loop-Within (on_pairing_requested app c) rest)

-- From its start, the interface answers only devices whose request it was sent, each request at most
-- once and in their order.
pub run-Within :
    (opening : Opening) (events : List Happened) (h : Handled)
    → run opening events ≡ ok h
    → Within (answered h.calls) (requested events)
unfolding run pending
run-Within opening events h e = elim (Result-cases opening.proxy) [
  | inl (x, failed) ↦ ground arith
  | inr (p, got_proxy) ↦ elim (Result-cases opening.subscribed) [
    | inl (x, failed) ↦ ground arith
    | inr (q, got_requests) ↦ elim (Result-cases opening.terminal) [
      | inl (x, failed) ↦ ground arith
      | inr (t, got_terminal) ↦
          let app = record new { devices = unwrap_devices opening.listed } in
          let same : loop app events ≡ h = ground arith in
          subst (λ r. Within (answered r.calls) (requested events)) same (loop-Within app events)
    ]
  ]
]
