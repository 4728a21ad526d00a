-- ===== src/Daemon/Start.antt =====
-- crates/daemon/src/main.rs: what `main` does up to the point where the service is ready. The socket,
-- the bus and the search for the clipboard's extension give their answers as arguments.
pub mod Restored
pub mod Again
use penguinsync.Base.{ℕ, Bytes, Str, str, Bool, false, List, [], ◌∷◌, Option, none, some, bytes_key}
use penguinsync.Base.Result.{Result, ok, err}
use penguinsync.Base.Map.{Map, lookup, insert}
use penguinsync.Base.Addr.{SocketAddr, octets}
use penguinsync.Base.Addr
use penguinsync.Base.Trim.{join_path}
use penguinsync.Base.Disk.{Disk, Cut}
use penguinsync.Base.Disk.Replacing.{Json}
use penguinsync.Protocol.Hex.{from_hex}
use penguinsync.Net.Tls.{Crypto}
use penguinsync.Net.Tls
use penguinsync.Net.Identity.{Rcgen, Identity, IdentityError, load_or_generate}
use penguinsync.Daemon.State.{PersistedDevice, PersistedState, device_ids}
use penguinsync.Daemon.State.Saving
use penguinsync.Daemon.Config.{
  Config, Surroundings, Toml, load, device_name, xdg_config_dir, xdg_data_dir,
}
use penguinsync.Daemon.Shared.{Shared, Device1}
use penguinsync.Daemon.Dbus.{device_path}

-- Why the process ends before it serves.
pub data Exit : Type 0 where
  no_home : Exit
  no_identity : IdentityError → Exit
  not_bound : Str → Exit
  no_bus : Str → Exit

abbrev pub state_file : Str
state_file = str "devices.json"

-- The answers of what lies outside: a key pair if one must be made, where the disk fails, the
-- socket with its address, the bus, and whether the extension is there; and whether the file of the
-- devices can be written later.
pub record Answers {crypto : Crypto} (rcgen : Rcgen crypto) : Type 0 where
  pub fresh : Result Str rcgen.KeyPair
  pub cut : Cut
  pub bind : SocketAddr → Result Str (Option SocketAddr)
  pub bus : Result Str (Unit {0})
  pub probe : Bool
  pub disk_writable : Bool

-- `ObjectServer::at`: an object that is there is left as it is.
unfoldable pub at : Map Str Device1 → Str → Device1 → Map Str Device1
at objects path object = elim (lookup path objects) [
  | none ↦ insert path object objects
  | some _ ↦ objects
]

unfoldable pub restore : List PersistedDevice → Map Str Device1 → Map Str Device1
restore [] objects = objects
restore (device ∷ rest) objects = elim (from_hex device.device_id) [
  | none ↦ restore rest objects
  | some id ↦ restore rest (
      at objects (device_path id)
        (record { name = device.name; device_id = device.device_id; connected = false }))
]

unfoldable pub bound_or : Option SocketAddr → SocketAddr → SocketAddr
bound_or none listen_addr = listen_addr
bound_or (some bound_addr) listen_addr = bound_addr

module _ {crypto : Crypto} (rcgen : Rcgen crypto) (json : Json PersistedState) where
  -- The state that is shared, with the objects restored and the backend set, which `main` does only when
  -- the orchestrator has been spawned; before that no received clip is written. An object that cannot be
  -- registered is not told apart.
  unfoldable pub shared :
      Identity rcgen → PersistedState → Str → SocketAddr → (probe disk_writable : Bool) → Shared
  unfolding restore
  shared identity state name bound_addr probe disk_writable = record {
    identity = identity.device_id;
    name = name;
    listen_addr = bound_addr;
    trust = Tls.new (device_ids state);
    state = state;
    current_token = none;
    pending_confirmations = [];
    remote_to_device = [];
    remote_handles = [];
    connected_devices = [];
    last_hash = none;
    has_backend = probe;
    disk = state;
    disk_writable = disk_writable;
    objects = restore state.devices [];
    requests = [];
    applied = [];
    sent = [];
    next_channel = 0;
    waiting = none;
    inbox = [];
  }

  -- From the state on disk: the socket, then the bus.
  unfoldable pub serve :
      Config → Surroundings → Answers rcgen → Identity rcgen → PersistedState → Result Exit Shared
  serve config around answers identity state =
      let listen_addr = Addr.new (octets 0 0 0 0) config.listen_port in
      elim (answers.bind listen_addr) [
        | err e ↦ err (not_bound e)
        | ok local_addr ↦ elim answers.bus [
          | err e ↦ err (no_bus e)
          | ok _ ↦ ok (
              shared identity state (device_name config around) (bound_or local_addr listen_addr)
                answers.probe answers.disk_writable)
        ]
      ]

  -- The data directory after it, and the service, if it came up.
  unfoldable pub start : Surroundings → Answers rcgen → Config → Disk → Disk × Result Exit Shared
  start around answers config d =
      let (d', identity) = load_or_generate rcgen answers.fresh answers.cut d in
      (
        d',
        elim identity [
          | err e ↦ err (no_identity e)
          | ok found ↦ serve config around answers found (Saving.load json state_file d')
        ],
      )

  unfoldable pub main : Toml → Surroundings → Answers rcgen → Disk → Disk × Result Exit Shared
  unfolding start
  main toml around answers d = elim (xdg_config_dir around) [
    | none ↦ (d, err no_home)
    | some config_dir ↦ elim (xdg_data_dir around) [
      | none ↦ (d, err no_home)
      | some data_dir ↦
          start around answers (load toml around (join_path config_dir (str "config.toml"))) d
    ]
  ]
