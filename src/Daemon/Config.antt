-- ===== src/Daemon/Config.antt =====
-- crates/daemon/src/config.rs, and the directories of crates/daemon/src/main.rs. Files are read and
-- variables looked up by functions that are given; the TOML parser is a parameter.
use penguinsync.Base.{
  ℕ, ◌≡◌, ◌≢◌, Bytes, Str, str, [], ◌∷◌, Option, none, some, arith, inl, inr, Option-cases,
}
use penguinsync.Base.Trim.{trim, join_path}

-- Unassigned by IANA.
abbrev default_port : ℕ
default_port = 58210

pub record Config : Type 0 where
  pub device_name : Option Str
  pub listen_port : ℕ

abbrev pub default : Config
default = record { device_name = none; listen_port = default_port }

-- What the process finds around it: the files outside its data directory and its variables.
pub record Surroundings : Type 0 where
  pub read_to_string : Str → Option Bytes
  pub var : Str → Option Str

-- `toml::from_str` with the defaults for fields that are missing.
abbrev pub Toml : Type 0
Toml = Bytes → Option Config

unfoldable pub load : Toml → Surroundings → Str → Config
load from_str around path = elim (around.read_to_string path) [
  | none ↦ default
  | some text ↦ elim (from_str text) [ none ↦ default | some config ↦ config ]
]

unfoldable pub hostname : Surroundings → Option Str
hostname around = elim (around.read_to_string (str "/etc/hostname")) [
  | none ↦ around.var (str "HOSTNAME")
  | some text ↦ some (trim text)
]

-- `filter` and `unwrap_or_else`
unfoldable pub non_empty_or : Option Str → Str → Str
non_empty_or none other = other
non_empty_or (some []) other = other
non_empty_or (some (c ∷ rest)) other = c ∷ rest

unfoldable pub device_name : Config → Surroundings → Str
device_name config around = elim config.device_name [
  | none ↦ non_empty_or (hostname around) (str "penguinsync-device")
  | some name ↦ name
]

-- `$variable`, or a directory below `$HOME`, without which the process stops.
xdg_dir : Surroundings → Str → Str → Option Str
xdg_dir around variable fallback = elim (around.var variable) [
  | some dir ↦ some (join_path dir (str "penguinsync"))
  | none ↦ elim (around.var (str "HOME")) [
    | none ↦ none
    | some home ↦ some (join_path (join_path home fallback) (str "penguinsync"))
  ]
]

unfoldable pub xdg_config_dir : Surroundings → Option Str
unfolding xdg_dir
xdg_config_dir around = xdg_dir around (str "XDG_CONFIG_HOME") (str ".config")

unfoldable pub xdg_data_dir : Surroundings → Option Str
unfolding xdg_dir
xdg_data_dir around = xdg_dir around (str "XDG_DATA_HOME") (str ".local/share")

-- A device that has no name in its configuration has one all the same.
device_name-unset :
    (config : Config) (around : Surroundings)
    → config.device_name ≡ none
    → device_name config around ≢ []
unfolding device_name non_empty_or
device_name-unset config around h e = elim (Option-cases (hostname around)) [
  | inl none_known ↦ ground arith
  | inr ([], known) ↦ ground arith
  | inr (c ∷ rest, known) ↦ ground arith
]
