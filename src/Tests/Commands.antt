-- ===== src/Tests/Commands.antt =====
-- Runs of the commands and of the terminal interface's loop.
use penguinsync.Base.{
  ◌<◌, ◌≡◌, ◌⊎◌, ◌↔◌, refl, Str, str, true, false, List, [], ◌∷◌, none, some, arith, All,
  bytes_discrete,
}
use penguinsync.Base.Result.{ok, err}
use penguinsync.Protocol.Hex.{to_hex}
use penguinsync.Net.Tls.{is_paired}
use penguinsync.Cli.Tui.{Daemon, DeviceInfo, PendingConfirmation, char, esc, new}
use penguinsync.Cli.Tui.Running.{Happened, key_press, tick, asked, loop, Opening, run}
use penguinsync.Cli.Tui.Running.Answers.{answered, requested, Within, run-Within}
use penguinsync.Cli.Tui.Running.Leaving.{overlays, presses, loop_leaves}
use penguinsync.Cli.Tui.Layout.{Rect}
use penguinsync.Cli.Tui.Drawing.{draw}
use penguinsync.Cli.Tui.Drawing.Hints.{draw_iff}
use penguinsync.Cli.Client.{
  Managed, SessionBus, connect, list_devices, device_interface, collect, sort_by_name, str_leb,
  device_info,
}
use penguinsync.Cli.Client.Listing.{IsSorted, named, infos, list_devices_lem}
use penguinsync.Cli.Commands.{PairWorld, request, run_pair, run_unpair}
use penguinsync.Cli.Commands.Pairing.{IsCareful, run_pair-IsCareful}
use penguinsync.Cli.Commands.Unpairing.{unpaired_by, left_by, IsMatching, run_unpair-revokes}
use penguinsync.Tests.Protocol.{phone_id, desk_id}
use penguinsync.Tests.Daemon.{paired_daemon}

abbrev shown_device : Str → Str → Managed
shown_device id name = record {
  path = [];
  interfaces = device_interface ∷ [];
  proxy = ok tt;
  device_id = some id;
  name = some name;
  connected = none;
}

abbrev two_objects : List Managed
two_objects = shown_device (str "b1") (str "tablet") ∷ shown_device (str "a0") (str "phone") ∷ []

abbrev two_bus : SessionBus
two_bus = record { session = ok tt; name_has_owner = ok true; managed_objects = ok two_objects }

list_devices_lem_example :
    (devices : List DeviceInfo) × (list_devices two_bus ≡ ok devices)
    × IsSorted devices
    × (named (str "phone") devices ≡ named (str "phone") (infos two_objects))
list_devices_lem_example =
    list_devices_lem two_bus two_objects (str "phone") refl (refl, (refl, tt))

abbrev two_rows : List DeviceInfo
two_rows =
    record { device_id = str "a0"; name = str "phone"; connected = false }
    ∷ record { device_id = str "b1"; name = str "tablet"; connected = false }
    ∷ []

-- The phone is paired, and its id and another one are listed.
abbrev id_bus : SessionBus
id_bus = record {
  session = ok tt;
  name_has_owner = ok true;
  managed_objects = ok (
      shown_device (to_hex desk_id) (str "desk")
      ∷ shown_device (to_hex phone_id) (str "phone")
      ∷ []);
}

abbrev id_rows : List DeviceInfo
id_rows =
    record { device_id = to_hex desk_id; name = str "desk"; connected = false }
    ∷ record { device_id = to_hex phone_id; name = str "phone"; connected = false }
    ∷ []

-- The phone's id begins with 09, the other one with 07.
run_unpair-revokes_example :
    (found : List DeviceInfo) × IsMatching (str "09") id_rows found
    × (is_paired
          (unpaired_by paired_daemon
            (run_unpair id_bus (ok tt) (λ id. ok tt) (str "09")).calls).trust
          phone_id
        ≡ left_by found phone_id (is_paired paired_daemon.trust phone_id))
unfolding connect list_devices collect bytes_discrete sort_by_name str_leb device_info to_hex
run_unpair-revokes_example =
    run_unpair-revokes paired_daemon id_bus (ok tt) (λ id. ok tt) (str "09") id_rows phone_id refl
      refl refl

abbrev a_request : PendingConfirmation
a_request = record { device_id = str "a0"; fingerprint = str "aa bb"; name = str "phone" }

abbrev narrow_world : PairWorld
narrow_world = record {
  bus = two_bus;
  proxy = ok tt;
  started = ok (str "penguinsync:x", str "aa bb");
  qrcode = λ uri. ok (str "####" ∷ str "####" ∷ []);
  width = some 3;
  width_again = some 3;
  subscribed = ok tt;
  heard = request a_request;
  typed = str " Yes";
  confirmed = ok tt;
}

run_pair-IsCareful_example : All (IsCareful narrow_world) (run_pair narrow_world).calls
run_pair-IsCareful_example = run_pair-IsCareful narrow_world

abbrev silent : Daemon
silent = record { started = err []; unpaired = err []; qrcode = λ uri. err [] }

abbrev an_opening : Opening
an_opening = record { proxy = ok tt; subscribed = ok tt; terminal = ok tt; listed = ok two_rows }

abbrev some_events : List Happened
some_events = asked (some a_request) ∷ key_press (char b'y') silent 3 ∷ []

run-Within_example :
    Within
      (answered (loop (record new { devices = two_rows }) some_events).calls)
      (requested some_events)
unfolding run
run-Within_example =
    run-Within an_opening some_events (loop (record new { devices = two_rows }) some_events) refl

abbrev esc_events : List Happened
esc_events = key_press esc silent 3 ∷ tick (err []) silent 4 ∷ key_press esc silent 5 ∷ []

loop_leaves_example :
    (loop (record new { confirmation = some a_request }) esc_events).running ≡ false
unfolding overlays presses
loop_leaves_example =
    loop_leaves (record new { confirmation = some a_request }) esc_events (refl, (tt, (refl, tt)))
      (omega arith)

abbrev small_area : Rect
small_area = record { x = 0; y = 0; width = 19; height = 30 }

draw_iff_example :
    (draw (λ r. (r, r, r)) (record new { confirmation = some a_request }) small_area 5 ≡ none)
    ↔ ((c : PendingConfirmation) × (some a_request ≡ some c) × ((19 < 20) ⊎ (30 < 10)))
draw_iff_example =
    draw_iff (λ r. (r, r, r)) (record new { confirmation = some a_request }) small_area 5 refl refl
      tt
