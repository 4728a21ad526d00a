-- ===== src/Cli/Tui/Running/Leaving.antt =====
-- How the interface is left.
use penguinsync.Base.{
  ℕ, suc, ◌+◌, ◌<◌, ◌≤◌, ◌≡◌, ◌⊎◌, subst, sym, Str, true, false, List, [], ◌∷◌, Option, none, some,
  arith, Option-cases, inl, inr, All,
}
use penguinsync.Base.Result.{Result}
use penguinsync.Base.Time.{Instant}
use penguinsync.Cli.Tui.{
  App, Daemon, DeviceInfo, esc, handle_key, answer_key, plain_key, on_refresh, regenerate,
}
use penguinsync.Cli.Tui.Running.{Happened, key_press, other_input, tick, asked, round, loop}

-- Nothing but Esc, the timer and events that are no keys.
abbrev IsLeaving : Happened → Type 0
IsLeaving (key_press code daemon now) = code ≡ esc
IsLeaving other_input = Unit
IsLeaving (tick listed daemon now) = Unit
IsLeaving (asked c) = ⊥

unfoldable pub presses : List Happened → ℕ
presses [] = 0
presses (key_press code daemon now ∷ rest) = suc (presses rest)
presses (other_input ∷ rest) = presses rest
presses (tick listed daemon now ∷ rest) = presses rest
presses (asked c ∷ rest) = presses rest

one : {A : Type 0} → Option A → ℕ
one none = 0
one (some a) = 1

-- The overlays that Esc has to close.
unfoldable pub overlays : App → ℕ
unfolding one
overlays app = one app.confirmation + one app.pairing_display

esc-overlays :
    (app : App) (daemon : Daemon) (now : Instant)
    → ((handle_key app daemon esc now).running ≡ false)
      ⊎ (((handle_key app daemon esc now).running ≡ true)
          × (suc (overlays (handle_key app daemon esc now).app) ≤ overlays app))
unfolding handle_key answer_key plain_key overlays
esc-overlays app daemon now = elim (Option-cases app.confirmation) [
  | inr (c, due) ↦ inr (ground arith, ground arith)
  | inl quiet ↦ elim (Option-cases app.pairing_display) [
    | inl plain ↦ inl (ground arith)
    | inr (p, shown) ↦ inr (ground arith, ground arith)
  ]
]

-- The timer may show another code, but only in place of one.
on_refresh-overlays :
    (app : App) (daemon : Daemon) (listed : Result Str (List DeviceInfo)) (now : Instant)
    → overlays (on_refresh app daemon listed now).0 ≤ overlays app
unfolding on_refresh regenerate overlays
on_refresh-overlays app daemon listed now = ground arith

-- Whatever overlays are open, whatever the daemon answers and however often the timer comes in
-- between, as many presses of Esc as there are overlays and one more end the interface.
pub loop_leaves :
    (app : App) (events : List Happened)
    → All IsLeaving events
    → overlays app < presses events
    → (loop app events).running ≡ false
unfolding loop round presses
loop_leaves app [] h le = absurd (omega arith)
loop_leaves app (key_press code daemon now ∷ rest) h le =
    subst (λ k. (loop app (key_press k daemon now ∷ rest)).running ≡ false) (sym h.0)
      (elim (esc-overlays app daemon now) [
        | inl ends ↦ ground arith
        | inr (runs, fewer) ↦
            ground (arith, loop_leaves (handle_key app daemon esc now).app rest h.1 (omega arith))
      ])
loop_leaves app (other_input ∷ rest) h le = loop_leaves app rest h.1 le
loop_leaves app (tick listed daemon now ∷ rest) h le =
    loop_leaves (on_refresh app daemon listed now).0 rest h.1
      (omega (arith, on_refresh-overlays app daemon listed now))
loop_leaves app (asked c ∷ rest) h le = absurd h.0
