-- ===== src/Cli/Tui/Confirming.antt =====
-- The security prompt of the terminal interface.
use penguinsync.Base.{◌≡◌, ◌↔◌, ◌⊎◌, Str, Bool, true, List, [], ◌∷◌, some, arith}
use penguinsync.Base.Time.{Instant}
use penguinsync.Cli.Tui.{
  App, PendingConfirmation, Daemon, DaemonCall, confirm_pairing_call, KeyCode, char, handle_key,
  answer_key, plain_key, press_p, press_u,
}

-- One of the calls confirms this device, with this answer.
abbrev pub Confirms : Str → Bool → List DaemonCall → Type 0
Confirms id accept [] = ⊥
Confirms id accept (confirm_pairing_call d a ∷ rest) =
    ((d ≡ id) × (a ≡ accept)) ⊎ Confirms id accept rest
Confirms id accept (_ ∷ rest) = Confirms id accept rest

-- A key accepts a pairing exactly when a confirmation is on screen, for that device, and the key is
-- `y` or `Y`. While one is on screen no key ends the interface, and the daemon is asked nothing but
-- to confirm or reject that device.
pub handle_key-Confirms :
    (app : App) (daemon : Daemon) (code : KeyCode) (now : Instant)
    → ((id : Str)
        → Confirms id true (handle_key app daemon code now).calls ↔ (
            (c : PendingConfirmation) × (app.confirmation ≡ some c)
            × (c.device_id ≡ id)
            × ((code ≡ char b'y') ⊎ (code ≡ char b'Y'))))
      × ((c : PendingConfirmation)
          → app.confirmation ≡ some c
          → ((handle_key app daemon code now).running ≡ true)
            × (((handle_key app daemon code now).calls ≡ [])
                ⊎ ((accept : Bool) × ((handle_key app daemon code now).calls
                      ≡ confirm_pairing_call c.device_id accept ∷ []))))
unfolding handle_key answer_key plain_key press_p press_u
handle_key-Confirms app daemon code now =
    (λ id. (λ h. ground arith, λ h. ground arith), λ c h. ground arith)
