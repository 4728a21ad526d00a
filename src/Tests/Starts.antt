-- ===== src/Tests/Starts.antt =====
-- Runs of starts: the identity's files, the devices' file and the daemon.
use penguinsync.Base.{
  ℕ, ◌≡◌, ◌==◌, refl, Bytes, Str, str, Bool, true, false, List, [], ◌∷◌, ◌++◌, Option, none, some,
  arith, All, length, if◌then◌else◌, IsArray, bytes_key, bytes_discrete,
}
use penguinsync.Base.Map.{lookup, insert, elem}
use penguinsync.Base.Result.{Result, ok}
use penguinsync.Base.Addr.{SocketAddr, v4, octets}
use penguinsync.Base.Disk.{Disk, Cut, exists, attempt, perform, written, read_to_string}
use penguinsync.Base.Disk.Replacing.{Json, fetch}
use penguinsync.Net.Tls.{TrustStore, check, pin, is_paired}
use penguinsync.Net.Identity.{
  Rcgen, Identity, of_key, generate, load_or_generate, key_file, cert_file,
}
use penguinsync.Net.Identity.Keeping.{HasKey}
use penguinsync.Net.Identity.Starts.{load_or_generate-again, starts, starts_recover}
use penguinsync.Daemon.Config.{
  Config, Surroundings, Toml, xdg_config_dir, xdg_data_dir, hostname, non_empty_or,
}
use penguinsync.Daemon.Start.{Answers, state_file, shared, serve, start, main, bound_or}
use penguinsync.Daemon.Start.Restored.{IsShown}
use penguinsync.Daemon.Start.Again.{main-IsStarted, main-restart}
use penguinsync.Daemon.Dbus.{device_path}
use penguinsync.Daemon.Shared.{Shared}
use penguinsync.Daemon.Tasks.{advance, proceed, receive}
use penguinsync.Daemon.Tasks.Ticks.{
  Tick, start_pairing, calls, proceeds, orchestrates, proceed_nth, run, step,
}
use penguinsync.Daemon.Tasks.Refines.Reach.{at_rest}
use penguinsync.Daemon.World.Restart.{IsStarted}
use penguinsync.Daemon.State.{PersistedDevice, PersistedState, empty, device_ids}
use penguinsync.Daemon.State.Saving.{load, save, load-save}
use penguinsync.Tests.Crates.{plain_crypto, packed, unpack, unpack-packed}
use penguinsync.Tests.Protocol.{phone_id, phone_id-IsArray, a_token}

pub plain-spki : (k c : Bytes) → ◌≡◌ {A = Result Str Bytes} (ok k) (ok c) → some c ≡ some k
plain-spki k c h = cc h

-- Keys that are their own texts and certificates.
abbrev pub plain_rcgen : Rcgen plain_crypto
plain_rcgen = record {
  KeyPair = Bytes;
  Params = Unit;
  from_pem = λ s. ok s;
  serialize_pem = λ k. k;
  serialize_der = λ k. k;
  public_key_der = λ k. k;
  params_new = λ names. ok tt;
  self_signed = λ p k. ok k;
  cert_pem = λ c. c;
  from_pem-serialize_pem = λ k. refl;
  spki-self_signed = λ p k c h. plain-spki k c h;
}

abbrev pub identity_of : Bytes → Identity plain_rcgen
identity_of k = record { device_id = k; key_pair = k; cert = k }

load_or_generate-again_example :
    load_or_generate plain_rcgen
      (ok (2 ∷ []))
      (some (1, none))
      (load_or_generate plain_rcgen (ok (1 ∷ [])) none []).0
    ≡ ((load_or_generate plain_rcgen (ok (1 ∷ [])) none []).0, ok (identity_of (1 ∷ [])))
unfolding load_or_generate exists lookup generate of_key penguinsync.Net.Identity.save attempt
load_or_generate-again_example =
    load_or_generate-again plain_rcgen (ok (1 ∷ [])) (ok (2 ∷ [])) none (some (1, none)) []
      (identity_of (1 ∷ [])) refl

-- Two starts that stop while the key is written and before the certificate is.
abbrev broken_starts : List (Result Str Bytes × Cut)
broken_starts = (ok (1 ∷ 1 ∷ []), some (1, some 1)) ∷ (ok (2 ∷ 2 ∷ []), some (3, some 0)) ∷ []

abbrev no_pins : TrustStore
no_pins = record { paired = []; pairing_deadline = none }

starts_recover_example :
    (identity : Identity plain_rcgen) × ((load_or_generate plain_rcgen
        (ok (3 ∷ []))
        none
        (starts plain_rcgen broken_starts [])).1
      ≡ ok identity)
    × (check plain_crypto (pin no_pins identity.device_id) identity.cert 5 ≡ ok tt)
    × HasKey plain_rcgen
        (load_or_generate plain_rcgen (ok (3 ∷ [])) none (starts plain_rcgen broken_starts [])).0
        identity.key_pair
unfolding of_key
starts_recover_example =
    starts_recover plain_rcgen broken_starts (3 ∷ []) no_pins 5 (λ k. (identity_of k, refl))

-- A coder of states of at most one device.
unfoldable to_text : List PersistedDevice → Option Bytes
to_text [] = some []
to_text (d ∷ []) = some (packed d.device_id d.name)
to_text (_ ∷ _ ∷ _) = none

unfoldable of_text : Bytes → Option PersistedState
of_text [] = some empty
of_text (n ∷ rest) =
    let (device_id, name) = unpack (n ∷ rest) in
    some (record { devices = record { device_id = device_id; name = name } ∷ [] })

of_text-to_text :
    (ds : List PersistedDevice) (text : Bytes)
    → to_text ds ≡ some text
    → of_text text ≡ some (record { devices = ds })
unfolding to_text of_text
of_text-to_text [] text h = ground arith
of_text-to_text (d ∷ []) text h = ground (arith, unpack-packed d.device_id d.name)
of_text-to_text (_ ∷ _ ∷ _) text h = ground arith

abbrev plain_json : Json PersistedState
plain_json = record {
  to_vec_pretty = λ s. to_text s.devices;
  from_str = of_text;
  from_str-to_vec = λ s text h. of_text-to_text s.devices text h;
}

abbrev one_device : PersistedState
one_device = record { devices = record { device_id = str "ab"; name = str "phone" } ∷ [] }

-- The write of the temporary file stops after two bytes.
load-save_example :
    load plain_json
      (str "devices.json")
      (save plain_json one_device (str "devices.json") (some (1, some 2)) []).0
    ≡ (if (save plain_json one_device (str "devices.json") (some (1, some 2)) []).1
        then one_device
        else load plain_json (str "devices.json") [])
load-save_example = load-save plain_json one_device (str "devices.json") (some (1, some 2)) []

-- A home directory and nothing else.
abbrev plain_home : Surroundings
plain_home = record {
  read_to_string = λ path. none;
  var = λ name. if length name == 4 then some (str "/home/user") else none;
}

abbrev plain_answers : Answers plain_rcgen
plain_answers = record {
  fresh = ok (4 ∷ []);
  cut = none;
  bind = λ addr. ok none;
  bus = ok tt;
  probe = false;
  disk_writable = true;
}

-- The identity is there and so is a file with one device.
abbrev used_disk : Disk
used_disk =
    (str "identity-key.pem", record { content = 4 ∷ []; owner_only = true })
    ∷ (str "identity-cert.pem", record { content = 4 ∷ []; owner_only = false })
    ∷ (str "devices.json", record { content = packed (str "ab") (str "phone"); owner_only = false })
    ∷ []

abbrev started_daemon : Shared
started_daemon =
    shared plain_rcgen plain_json (identity_of (4 ∷ [])) one_device (str "penguinsync-device")
      (record { ip = v4 0; port = 58210; flowinfo = 0; scope_id = 0 }) false true

comes_up :
    (main plain_rcgen plain_json (λ text. none) plain_home plain_answers used_disk).1
    ≡ ok started_daemon
unfolding main start serve xdg_config_dir xdg_data_dir load_or_generate exists lookup of_key
    read_to_string penguinsync.Net.Identity.load load fetch of_text unpack
    penguinsync.Daemon.Config.load penguinsync.Daemon.Config.device_name hostname non_empty_or
    bound_or penguinsync.Base.Addr.new octets bytes_discrete
comes_up = refl

main-IsStarted_example :
    IsStarted started_daemon
    × (started_daemon.disk ≡ load plain_json state_file used_disk)
    × ((identity : Identity plain_rcgen) × ((load_or_generate plain_rcgen
            (ok (4 ∷ []))
            none
            used_disk).1
          ≡ ok identity)
        × (started_daemon.identity ≡ identity.device_id))
    × IsShown phone_id
        (lookup (device_path phone_id) started_daemon.objects)
        (is_paired started_daemon.trust phone_id)
main-IsStarted_example =
    main-IsStarted plain_rcgen plain_json (λ text. none) plain_home plain_answers used_disk
      started_daemon phone_id comes_up phone_id-IsArray

-- A pairing is started and nobody comes.
abbrev quiet_ticks : List Tick
quiet_ticks = calls (start_pairing a_token 0) ∷ proceeds 0 ∷ orchestrates 5 ∷ proceeds 0 ∷ []

abbrev empty_daemon : Shared
empty_daemon =
    shared plain_rcgen plain_json (identity_of (4 ∷ [])) empty (str "penguinsync-device")
      (record { ip = v4 0; port = 58210; flowinfo = 0; scope_id = 0 }) false true

starts_empty :
    (main plain_rcgen plain_json (λ text. none) plain_home plain_answers []).1 ≡ ok empty_daemon
unfolding main start serve xdg_config_dir xdg_data_dir load_or_generate exists lookup of_key
    read_to_string generate penguinsync.Net.Identity.save attempt load fetch of_text unpack
    penguinsync.Daemon.Config.load penguinsync.Daemon.Config.device_name hostname non_empty_or
    bound_or penguinsync.Base.Addr.new octets bytes_discrete perform written insert
starts_empty = refl

main-restart_example :
    let last = (run (λ bs. bs) (at_rest empty_daemon) quiet_ticks).shared.state in
    (empty_daemon.state ≡ last)
    × (is_paired empty_daemon.trust phone_id ≡ elem phone_id (device_ids last))
    × IsShown phone_id
        (lookup (device_path phone_id) empty_daemon.objects)
        (elem phone_id (device_ids last))
unfolding run step advance receive proceed_nth proceed shared load fetch read_to_string lookup
main-restart_example =
    main-restart plain_rcgen plain_json (λ text. none) plain_home plain_home plain_answers
      plain_answers [] [] empty_daemon empty_daemon (λ bs. bs) quiet_ticks phone_id starts_empty
      refl refl refl starts_empty phone_id-IsArray
