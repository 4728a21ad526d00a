-- ===== src/Cli/Commands.antt =====
-- crates/cli/src/main.rs: the commands of the command line. A command's outcome is what it prints,
-- line by line, which methods of the daemon it calls, and its result.
pub mod Pairing
pub mod Unpairing
use penguinsync.Base.{
  ℕ, Bytes, Str, str, Bool, true, false, ◌||◌, ◌&&◌, List, [], ◌∷◌, ◌++◌, Option, none, some, ltb,
  leb, ◌+◌, ◌=?◌, ite, bytes_key, if◌then◌else◌, length, map,
}
use penguinsync.Base.Result.{Result, ok, err}
use penguinsync.Base.Trim.{trim, starts_with}
use penguinsync.Base.Decimal.{u16_to_string, usize_to_string}
use penguinsync.Cli.Qr.{Rendered, render}
use penguinsync.Cli.Tui.{
  DeviceInfo, PendingConfirmation, DaemonCall, start_pairing_call, confirm_pairing_call,
  unpair_call,
}
use penguinsync.Cli.Client.{
  ClientError, zbus, fdo, bus_name_error, daemon_not_running, SessionBus, connect, list_devices,
  bus_name,
}

data Command : Type 0 where
  pair : Command
  unpair : (device_id : Str) → Command
  debug : Command

pub record Outcome : Type 0 where
  pub printed : List Str
  pub calls : List DaemonCall
  pub result : Result ClientError (Unit {0})

abbrev pub done : Outcome
done = record { printed = []; calls = []; result = ok tt }

abbrev fails : ClientError → Outcome
fails e = record { printed = []; calls = []; result = err e }

-- `println!`, before what follows.
abbrev says : List Str → Outcome → Outcome
says lines after = record after { printed = lines ++ after.printed }

abbrev calling : DaemonCall → Outcome → Outcome
calling call after = record after { calls = call ∷ after.calls }

-- `?`
abbrev pub tries : {A : Type 0} → Result ClientError A → (A → Outcome) → Outcome
tries r continue = elim r [ err e ↦ fails e | ok a ↦ continue a ]

-- The end of the wait for the signal `PairingRequested`.
pub data Heard : Type 0 where
  timed_out : Heard
  stream_ended : Heard
  unreadable : Heard
  request : PendingConfirmation → Heard

-- What `pair` meets, in the order of its questions; the terminal is asked twice for its width.
pub record PairWorld : Type 0 where
  pub bus : SessionBus
  pub proxy : Result ClientError (Unit {0})
  pub started : Result ClientError (Str × Str)
  pub qrcode : Str → Result Str (List Str)
  pub width : Option ℕ
  pub width_again : Option ℕ
  pub subscribed : Result ClientError (Unit {0})
  pub heard : Heard
  pub typed : Str
  pub confirmed : Result ClientError (Unit {0})

unfoldable pub too_narrow : Option ℕ → Rendered → Bool
too_narrow none qr = false
too_narrow (some w) qr = ltb w qr.width

unwrap_width : Option ℕ → ℕ
unwrap_width none = 0
unwrap_width (some w) = w

unfoldable pub narrow_lines : ℕ → Rendered → Str → List Str
narrow_lines width qr uri =
    (str "This terminal is "
      ++ u16_to_string width
      ++ str " columns wide; the pairing QR needs "
      ++ u16_to_string qr.width
      ++ str ". A wrapped QR cannot be scanned, so it isn't shown.")
    ∷ str "Widen the window and run `penguinsync pair` again, or enter this on the phone by hand:"
    ∷ uri
    ∷ []

unfoldable pub code_lines : PairWorld → Str → List Str
unfolding narrow_lines unwrap_width
code_lines p uri = elim (render p.qrcode uri) [
  | err e ↦ (str "(could not render QR: " ++ e ++ str ")") ∷ uri ∷ []
  | ok qr ↦
      if too_narrow p.width qr then narrow_lines (unwrap_width p.width_again) qr uri else qr.text
]

abbrev hints : Str → List Str
hints fingerprint =
    (str "Fingerprint: " ++ fingerprint)
    ∷ str "Scan this on your phone, then confirm the fingerprint matches there."
    ∷ str "Waiting for the phone to connect (up to 60s)..."
    ∷ []

-- `to_lowercase`: only ASCII letters have the lower case y, e or s, and others are not asked for.
unfoldable pub lower : Str → Str
lower [] = []
lower (c ∷ rest) = (if leb b'A' c && leb c b'Z' then c + 32 else c) ∷ lower rest

unfoldable pub said_yes : Str → Bool
unfolding lower
said_yes typed =
    let answer = lower (trim typed) in
    ite (answer =? str "y") true (ite (answer =? str "yes") true false)

unfoldable pub answered : PairWorld → PendingConfirmation → Outcome
unfolding said_yes
answered p c =
    let accept = said_yes p.typed in
    says
      ([]
        ∷ (str "Device: " ++ c.name)
        ∷ (str "Fingerprint: " ++ c.fingerprint)
        ∷ str "Does this match the phone's screen? [y/N] "
        ∷ [])
      (calling (confirm_pairing_call c.device_id accept) (
        tries p.confirmed
          λ _. says ((if accept then str "Paired." else str "Rejected.") ∷ []) done))

unfoldable pub after_wait : PairWorld → Heard → Outcome
unfolding answered
after_wait p timed_out = says (str "No device connected in time." ∷ []) done
after_wait p stream_ended = says (str "No device connected in time." ∷ []) done
after_wait p unreadable = done
after_wait p (request c) = answered p c

unfoldable pub run_pair : PairWorld → Outcome
unfolding code_lines
run_pair p = tries (connect p.bus) λ _. tries p.proxy λ _. calling start_pairing_call (
    tries p.started λ s.
      says (code_lines p s.0) (says (hints s.1) (tries p.subscribed λ _. after_wait p p.heard)))

-- The devices whose id starts with the text.
unfoldable pub matching : Str → List DeviceInfo → List DeviceInfo
matching device_id [] = []
matching device_id (d ∷ rest) =
    let later = matching device_id rest in
    if starts_with d.device_id device_id then d ∷ later else later

unfoldable pub unpair_matches :
    (Str → Result ClientError (Unit {0})) → Str → List DeviceInfo → Outcome
unpair_matches answer device_id [] =
    says ((str "No paired device matches '" ++ device_id ++ str "'.") ∷ []) done
unpair_matches answer device_id (device ∷ []) = calling (unpair_call device.device_id) (
    tries (answer device.device_id)
      λ _. says ((str "Unpaired " ++ device.name ++ str ".") ∷ []) done)
unpair_matches answer device_id (_ ∷ _ ∷ _) =
    says ((str "'" ++ device_id ++ str "' matches more than one device; use a longer prefix.") ∷ [])
      done

-- `answer` is the daemon's answer to `unpair`.
unfoldable pub run_unpair :
    SessionBus
    → Result ClientError (Unit {0})
    → (Str → Result ClientError (Unit {0}))
    → Str
    → Outcome
unfolding unpair_matches matching
run_unpair bus proxy answer device_id = tries (connect bus) λ _. tries proxy λ _.
    tries (list_devices bus) λ devices. unpair_matches answer device_id (matching device_id devices)

device_line : DeviceInfo → Str
device_line d =
    str "  "
    ++ (if d.connected then 0xE2 ∷ 0x97 ∷ 0x8F ∷ [] else 0xE2 ∷ 0x97 ∷ 0x8B ∷ [])
    ++ str " "
    ++ d.device_id
    ++ str "  "
    ++ d.name

unfoldable run_debug : SessionBus → Outcome
unfolding device_line
run_debug bus = tries (connect bus) λ _. tries (list_devices bus) λ devices.
    says
      ((str "bus name: " ++ bus_name)
        ∷ (str "devices (" ++ usize_to_string (length devices) ++ str "):")
        ∷ map device_line devices)
      done

unfoldable error_text : ClientError → Str
error_text (zbus e) = str "D-Bus error: " ++ e
error_text (fdo e) = str "D-Bus error: " ++ e
error_text (bus_name_error e) = str "invalid bus name: " ++ e
error_text daemon_not_running =
    str "penguinsyncd isn't running, or hasn't claimed "
    ++ bus_name
    ++ str " yet "
    ++ 0xE2 ∷ 0x80 ∷ 0x94 ∷ str " is the systemd user service up?"

-- The exit code of `main`, and what it writes to the standard error.
unfoldable exit : Result ClientError (Unit {0}) → ℕ × List Str
unfolding error_text
exit (ok _) = (0, [])
exit (err e) = (1, (str "error: " ++ error_text e) ∷ [])

-- `run_tui`: what the interface ends with, once the daemon is reached.
unfoldable run_tui : SessionBus → Result ClientError (Unit {0}) → Outcome
run_tui bus ended = tries (connect bus) λ _. tries ended λ _. done

-- The command of the arguments: the terminal interface where there is none.
unfoldable dispatch :
    Option Command
    → PairWorld
    → (Str → Result ClientError (Unit {0}))
    → (ended : Result ClientError (Unit {0})) → Outcome
unfolding run_tui
dispatch none world answer ended = run_tui world.bus ended
dispatch (some pair) world answer ended = run_pair world
dispatch (some (unpair device_id)) world answer ended =
    run_unpair world.bus world.proxy answer device_id
dispatch (some debug) world answer ended = run_debug world.bus
