-- ===== src/Cli/Tui.antt =====
-- crates/cli/src/tui.rs: the terminal interface: its state, its keys, its timer and its layout.
pub mod Confirming
pub mod Refreshing
pub mod Layout
pub mod Drawing
pub mod Running
use penguinsync.Base.{
  ℕ, ◌+◌, ◌-◌, ◌*◌, ◌/◌, ◌<◌, Bytes, Str, str, Bool, true, false, ◌&&◌, ◌||◌, not, List, [], ◌∷◌,
  ◌++◌, Option, none, some, ltb, leb, ◌==◌, if◌then◌else◌, length, get_elem?,
}
use penguinsync.Base.Result.{Result, ok, err}
use penguinsync.Base.Time.{Instant, Duration, from_secs, duration_since}
use penguinsync.Protocol.Pairing.{token_ttl}
use penguinsync.Cli.Qr.{Rendered, render}

abbrev status_ttl : Duration
status_ttl = from_secs 4

pub data StatusKind : Type 0 where
  hint_kind ok_kind err_kind : StatusKind

pub record Status : Type 0 where
  pub text : Str
  pub kind : StatusKind
  pub set_at : Option Instant

abbrev hint : Status
hint = record { text = []; kind = hint_kind; set_at = none }

unfoldable pub expired : Status → Instant → Bool
expired s now = elim s.set_at [ none ↦ false | some at ↦ leb status_ttl (duration_since now at) ]

-- crates/cli/src/dbus_client.rs
pub record DeviceInfo : Type 0 where
  pub device_id : Str
  pub name : Str
  pub connected : Bool

pub record PendingConfirmation : Type 0 where
  pub device_id : Str
  pub fingerprint : Str
  pub name : Str

pub record PairingDisplay : Type 0 where
  pub qr : Rendered
  pub uri : Str
  pub fingerprint : Str
  pub issued_at : Instant

pub record App : Type 0 where
  pub devices : List DeviceInfo
  pub selected : ℕ
  pub status : Status
  pub pairing_display : Option PairingDisplay
  pub confirmation : Option PendingConfirmation

abbrev pub new : App
new = record {
  devices = [];
  selected = 0;
  status = hint;
  pairing_display = none;
  confirmation = none;
}

unfoldable pub selected_device : App → Option DeviceInfo
selected_device app = get_elem? app.devices app.selected

unfoldable set_status : App → Str → StatusKind → Instant → App
set_status app text kind now = record app {
  status = record { text = text; kind = kind; set_at = some now };
}

unfoldable pub should_regenerate : Instant → Instant → Bool → Bool
should_regenerate issued_at now confirmation_open =
    not confirmation_open && leb token_ttl (duration_since now issued_at)

unfoldable pub remaining_secs : Instant → Instant → ℕ
remaining_secs issued_at now = (token_ttl - duration_since now issued_at) / 1000000000

-- The methods of the daemon that are called, and what it answers; an error is its text.
pub data DaemonCall : Type 0 where
  start_pairing_call : DaemonCall
  confirm_pairing_call : (device_id : Str) (accept : Bool) → DaemonCall
  unpair_call : (device_id : Str) → DaemonCall

pub record Daemon : Type 0 where
  pub started : Result Str (Str × Str)
  pub unpaired : Result Str (Unit {0})
  pub qrcode : Str → Result Str (List Str)

unfoldable pub start_pairing : Daemon → Instant → Result Str PairingDisplay
start_pairing daemon now = elim daemon.started [
  | err e ↦ err e
  | ok (qr_uri, fingerprint) ↦ elim (render daemon.qrcode qr_uri) [
    | err e ↦ err (str "failed to render QR: " ++ e)
    | ok qr ↦ ok (record { qr = qr; uri = qr_uri; fingerprint = fingerprint; issued_at = now })
  ]
]

pub data KeyCode : Type 0 where
  char : ℕ → KeyCode
  esc up down other_key : KeyCode

-- The state after a key, whether the interface runs on, and the calls made.
pub record Handled : Type 0 where
  pub app : App
  pub running : Bool
  pub calls : List DaemonCall

abbrev stays : App → Handled
stays app = record { app = app; running = true; calls = [] }

abbrev accept_pending : App → PendingConfirmation → Instant → Handled
accept_pending app c now = record {
  app =
      set_status (record app { confirmation = none; pairing_display = none })
        (str "paired with " ++ c.name) ok_kind now;
  running = true;
  calls = confirm_pairing_call c.device_id true ∷ [];
}

abbrev reject_pending : App → PendingConfirmation → Instant → Handled
reject_pending app c now = record {
  app = set_status (record app { confirmation = none }) (str "pairing rejected") err_kind now;
  running = true;
  calls = confirm_pairing_call c.device_id false ∷ [];
}

unfoldable pub answer_key : App → PendingConfirmation → KeyCode → Instant → Handled
unfolding set_status
answer_key app c (char k) now =
    if k == b'y' || k == b'Y'
    then accept_pending app c now
    else if k == b'n' || k == b'N'
    then reject_pending app c now
    else stays app
answer_key app c esc now = reject_pending app c now
answer_key app c _ now = stays app

unfoldable pub press_p : App → Daemon → Instant → Handled
unfolding set_status
press_p app daemon now = record {
  app = elim (start_pairing daemon now) [
    | ok display ↦
        set_status (record app { pairing_display = some display })
          (str "scan the QR on your phone, then confirm the fingerprint") hint_kind now
    | err e ↦ set_status app (str "StartPairing failed: " ++ e) err_kind now
  ];
  running = true;
  calls = start_pairing_call ∷ [];
}

unfoldable pub press_u : App → Daemon → Instant → Handled
unfolding set_status selected_device
press_u app daemon now = elim (selected_device app) [
  | none ↦ stays app
  | some device ↦ record {
    app = elim daemon.unpaired [
      | ok _ ↦ set_status app (str "unpaired " ++ device.name) ok_kind now
      | err e ↦ set_status app (str "Unpair failed: " ++ e) err_kind now
    ];
    running = true;
    calls = unpair_call device.device_id ∷ [];
  }
]

abbrev move_up : App → Handled
move_up app = stays (record app { selected = app.selected - 1 })

abbrev move_down : App → Handled
move_down app =
    if ltb (app.selected + 1) (length app.devices)
    then stays (record app { selected = app.selected + 1 })
    else stays app

-- The keys without a confirmation on screen.
unfoldable pub plain_key : App → Daemon → KeyCode → Instant → Handled
unfolding press_p press_u
plain_key app daemon (char k) now =
    if k == b'q'
    then record { app = app; running = false; calls = [] }
    else if k == b'p'
    then press_p app daemon now
    else if k == b'u'
    then press_u app daemon now
    else if k == b'k'
    then move_up app
    else if k == b'j'
    then move_down app
    else stays app
plain_key app daemon esc now = elim app.pairing_display [
  | some _ ↦ stays (record app { pairing_display = none })
  | none ↦ record { app = app; running = false; calls = [] }
]
plain_key app daemon up now = move_up app
plain_key app daemon down now = move_down app
plain_key app daemon other_key now = stays app

unfoldable pub handle_key : App → Daemon → KeyCode → Instant → Handled
unfolding answer_key plain_key
handle_key app daemon code now = elim app.confirmation [
  | some c ↦ answer_key app c code now
  | none ↦ plain_key app daemon code now
]

-- The branch of the timer, with what `list_devices` gives.
abbrev refreshed : App → Result Str (List DeviceInfo) → Instant → App
refreshed app (ok devices) now = record app { devices = devices }
refreshed app (err e) now = set_status app (str "refresh failed: " ++ e) err_kind now

abbrev is_open : Option PendingConfirmation → Bool
is_open none = false
is_open (some _) = true

unfoldable is_stale : App → Instant → Bool
unfolding should_regenerate
is_stale app now = elim app.pairing_display [
  | none ↦ false
  | some p ↦ should_regenerate p.issued_at now (is_open app.confirmation)
]

unfoldable pub regenerate : App → Daemon → Instant → App
unfolding set_status
regenerate app daemon now = elim (start_pairing daemon now) [
  | ok display ↦ record app { pairing_display = some display }
  | err e ↦
      set_status (record app { pairing_display = none }) (str "QR refresh failed: " ++ e) err_kind
        now
]

unfoldable pub on_refresh :
    App → Daemon → Result Str (List DeviceInfo) → Instant → App × List DaemonCall
unfolding expired set_status is_stale regenerate
on_refresh app daemon listed now =
    let app1 = if expired app.status now then record app { status = hint } else app in
    let app2 = refreshed app1 listed now in
    if is_stale app2 now then (regenerate app2 daemon now, start_pairing_call ∷ []) else (app2, [])

-- The signal of the daemon that a device wants to pair.
unfoldable pub on_pairing_requested : App → PendingConfirmation → App
on_pairing_requested app c = record app { confirmation = some c }
