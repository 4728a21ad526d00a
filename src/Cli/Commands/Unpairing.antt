-- ===== src/Cli/Commands/Unpairing.antt =====
-- What `unpair` does to the daemon's trust store.
use penguinsync.Base.{
  ◌≡◌, ◌≢◌, ◌⊎◌, ◌++◌, refl, Bytes, Str, Bool, true, false, if◌then◌else◌, Option, List, [], ◌∷◌,
  none, some, ite, ◌=?◌, bytes_key, arith, Option-cases, inl, inr,
}
use penguinsync.Base.Trim.{starts_with, strip_prefix}
use penguinsync.Base.Result.{Result, ok, err, Result-cases}
use penguinsync.Protocol.Hex.{from_hex}
use penguinsync.Net.Tls.{is_paired}
use penguinsync.Net.Tls.Trust.{is_paired-unpair}
use penguinsync.Daemon.Shared.{Shared, persist_state}
use penguinsync.Daemon.Dbus.{forget}
use penguinsync.Daemon.Dbus
use penguinsync.Cli.Tui.{
  DeviceInfo, DaemonCall, start_pairing_call, confirm_pairing_call, unpair_call,
}
use penguinsync.Cli.Client.{ClientError, SessionBus, connect, list_devices}
use penguinsync.Cli.Commands.{run_unpair, unpair_matches, matching}

-- The daemon after the calls of `unpair` among these.
unfoldable pub unpaired_by : Shared → List DaemonCall → Shared
unpaired_by s [] = s
unpaired_by s (unpair_call device_id ∷ rest) = unpaired_by (Dbus.unpair s device_id).0 rest
unpaired_by s (start_pairing_call ∷ rest) = unpaired_by s rest
unpaired_by s (confirm_pairing_call device_id accept ∷ rest) = unpaired_by s rest

-- Whether an id is trusted at the end, if it was or was not before, by the devices that match: it
-- is revoked if the only one of them reads as this id.
unfoldable pub left_by : List DeviceInfo → Bytes → Bool → Bool
left_by [] id before = before
left_by (d ∷ []) id before = elim (from_hex d.device_id) [
  | none ↦ before
  | some found ↦ ite (found =? id) false before
]
left_by (_ ∷ _ ∷ _) id before = before

is_paired-forget :
    (s : Shared) (found id : Bytes)
    → is_paired (forget s found).trust id ≡ ite (found =? id) false (is_paired s.trust id)
unfolding forget persist_state
is_paired-forget s found id = ground (arith, is_paired-unpair s.trust found id)

is_paired-unpair_call :
    (s : Shared) (d : DeviceInfo) (id : Bytes)
    → is_paired (Dbus.unpair s d.device_id).0.trust id ≡ left_by (d ∷ []) id (is_paired s.trust id)
unfolding Dbus.unpair left_by
is_paired-unpair_call s d id = elim (Option-cases (from_hex d.device_id)) [
  | inl unreadable ↦ ground arith
  | inr (found, reads) ↦ ground (arith, is_paired-forget s found id)
]

matches-left :
    (s : Shared) (answer : Str → Result ClientError (Unit {0})) (text : Str) (ds : List DeviceInfo)
    (id : Bytes)
    → is_paired (unpaired_by s (unpair_matches answer text ds).calls).trust id
      ≡ left_by ds id (is_paired s.trust id)
unfolding unpair_matches unpaired_by left_by
matches-left s answer text [] id = refl
matches-left s answer text (d ∷ []) id = elim (Result-cases (answer d.device_id)) [
  | inl (e, refused) ↦ ground (arith, is_paired-unpair_call s d id)
  | inr (u, done) ↦ ground (arith, is_paired-unpair_call s d id)
]
matches-left s answer text (d ∷ e ∷ rest) id = refl

-- These are, in order, the devices whose id is the text with something or nothing behind it.
abbrev pub IsMatching : Str → List DeviceInfo → List DeviceInfo → Type 0
IsMatching text [] found = found ≡ []
IsMatching text (d ∷ rest) found =
    ((tail : Str) × (later : List DeviceInfo) × (d.device_id ≡ text ++ tail)
      × (found ≡ d ∷ later)
      × IsMatching text rest later)
    ⊎ (((tail : Str) → d.device_id ≢ text ++ tail) × IsMatching text rest found)

strip_prefix-some : (text s rest : Str) → strip_prefix text s ≡ some rest → s ≡ text ++ rest
unfolding strip_prefix
strip_prefix-some [] s rest h = ground arith
strip_prefix-some (c ∷ text) [] rest h = ground arith
strip_prefix-some (c ∷ text) (d ∷ s) rest h = ground (arith, strip_prefix-some text s rest)

strip_prefix-append : (text rest : Str) → strip_prefix text (text ++ rest) ≡ some rest
unfolding strip_prefix
strip_prefix-append [] rest = refl
strip_prefix-append (c ∷ text) rest = ground (arith, strip_prefix-append text rest)

matching-IsMatching :
    (text : Str) (devices : List DeviceInfo) → IsMatching text devices (matching text devices)
unfolding matching starts_with
matching-IsMatching text [] = refl
matching-IsMatching text (d ∷ rest) =
    by_start (matching-IsMatching text rest) (strip_prefix text d.device_id) refl
  where
    by_start :
        IsMatching text rest (matching text rest)
        → (o : Option Str) → strip_prefix text d.device_id ≡ o
        → IsMatching text (d ∷ rest) (
            if (elim o [ none ↦ false | some tail ↦ true ])
            then d ∷ matching text rest
            else matching text rest)
    by_start later none e =
        inr (λ tail same. ground (arith, e, same, strip_prefix-append text tail), later)
    by_start later (some tail) e =
        inl (tail, matching text rest, strip_prefix-some text d.device_id tail e, refl, later)

-- If the daemon can be reached and its devices are listed, the command revokes the one device whose
-- id starts with the text, if it is the only one, and no other; with no match or more than one
-- nothing is revoked.
pub run_unpair-revokes :
    (s : Shared) (bus : SessionBus) (proxy : Result ClientError (Unit {0}))
    (answer : Str → Result ClientError (Unit {0})) (text : Str) (devices : List DeviceInfo)
    (id : Bytes)
    → connect bus ≡ ok tt
    → proxy ≡ ok tt
    → list_devices bus ≡ ok devices
    → (found : List DeviceInfo) × IsMatching text devices found
      × (is_paired (unpaired_by s (run_unpair bus proxy answer text).calls).trust id
          ≡ left_by found id (is_paired s.trust id))
unfolding run_unpair
run_unpair-revokes s bus proxy answer text devices id connected reached listed = (
  matching text devices,
  matching-IsMatching text devices,
  rw (connected, reached, listed) (matches-left s answer text (matching text devices) id),
)

-- If the daemon cannot be reached, nothing is called.
run_unpair-fails :
    (bus : SessionBus) (proxy : Result ClientError (Unit {0}))
    (answer : Str → Result ClientError (Unit {0})) (text : Str) (e : ClientError)
    → connect bus ≡ err e
    → (run_unpair bus proxy answer text).calls ≡ []
unfolding run_unpair
run_unpair-fails bus proxy answer text e failed = rw (failed)
