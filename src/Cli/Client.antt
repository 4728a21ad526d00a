-- ===== src/Cli/Client.antt =====
-- crates/cli/src/dbus_client.rs: the daemon as the client sees it on the session bus. What the bus
-- answers is an argument.
pub mod Listing
use penguinsync.Base.{
  Bytes, Str, str, Bool, true, false, List, [], ◌∷◌, Option, none, some, ltb, ◌==◌, ◌=?◌, ite,
  bytes_key, if◌then◌else◌,
}
use penguinsync.Base.Result.{Result, ok, err, ◌>>=◌}
use penguinsync.Cli.Tui.{DeviceInfo}

abbrev pub bus_name : Str
bus_name = str "org.penguinsync.Daemon1"

abbrev pub root_path : Str
root_path = str "/org/penguinsync/Daemon"

abbrev pub device_interface : Str
device_interface = str "org.penguinsync.Device1"

-- The errors of the `zbus` crate by their texts.
pub data ClientError : Type 0 where
  zbus fdo bus_name_error : Str → ClientError
  daemon_not_running : ClientError

-- An object of the answer of `GetManagedObjects`, with what its proxy gives when it is asked.
pub record Managed : Type 0 where
  pub path : Str
  pub interfaces : List Str
  pub proxy : Result ClientError (Unit {0})
  pub device_id : Option Str
  pub name : Option Str
  pub connected : Option Bool

-- The session bus as a client meets it.
pub record SessionBus : Type 0 where
  pub session : Result ClientError (Unit {0})
  pub name_has_owner : Result ClientError Bool
  pub managed_objects : Result ClientError (List Managed)

unfoldable pub connect : SessionBus → Result ClientError (Unit {0})
connect bus = bus.session >>= λ connection.
    bus.name_has_owner >>= λ owned. if owned then ok tt else err daemon_not_running

unfoldable pub has_interface : Str → List Str → Bool
has_interface wanted [] = false
has_interface wanted (k ∷ rest) = ite (k =? wanted) true (has_interface wanted rest)

unwrap_or : {A : Type 0} → Option A → A → A
unwrap_or none default = default
unwrap_or (some a) default = a

unfoldable pub device_info : Managed → DeviceInfo
unfolding unwrap_or
device_info object = record {
  device_id = unwrap_or object.device_id [];
  name = unwrap_or object.name [];
  connected = unwrap_or object.connected false;
}

-- The loop of `list_devices`.
unfoldable pub collect : List Managed → Result ClientError (List DeviceInfo)
unfolding has_interface
collect [] = ok []
collect (object ∷ rest) =
    let later = collect rest in
    if has_interface device_interface object.interfaces
    then (object.proxy >>= λ proxy. later >>= λ devices. ok (device_info object ∷ devices))
    else later

-- `a <= b` of Rust's strings, which are compared by their bytes.
unfoldable pub str_leb : Str → Str → Bool
str_leb [] b = true
str_leb (x ∷ a) [] = false
str_leb (x ∷ a) (y ∷ b) = let rest = str_leb a b in if x == y then rest else ltb x y

-- `sort_by`, which is stable.
unfoldable pub insert_by_name : DeviceInfo → List DeviceInfo → List DeviceInfo
insert_by_name d [] = d ∷ []
insert_by_name d (e ∷ rest) =
    let later = insert_by_name d rest in if str_leb d.name e.name then d ∷ e ∷ rest else e ∷ later

unfoldable pub sort_by_name : List DeviceInfo → List DeviceInfo
unfolding insert_by_name
sort_by_name [] = []
sort_by_name (d ∷ rest) = insert_by_name d (sort_by_name rest)

unfoldable pub list_devices : SessionBus → Result ClientError (List DeviceInfo)
list_devices bus =
    bus.managed_objects >>= λ objects. collect objects >>= λ devices. ok (sort_by_name devices)
