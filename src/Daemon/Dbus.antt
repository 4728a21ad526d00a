-- ===== src/Daemon/Dbus.antt =====
-- crates/daemon/src/dbus.rs: the methods of `org.penguinsync.Daemon1`, and the objects of devices.
use penguinsync.Base.{
  ℕ, ◌+◌, Bytes, Str, str, Bool, List, ◌++◌, Option, none, some, bytes_key, if◌then◌else◌, ◌==◌,
}
use penguinsync.Base.Map.{Map, lookup, insert, remove}
use penguinsync.Base.Result.{Result, ok, err}
use penguinsync.Base.Time.{Instant}
use penguinsync.Base.Addr.{SocketAddr, AddrText}
use penguinsync.Protocol.Hex.{to_hex, from_hex, short_fingerprint}
use penguinsync.Protocol.Message.{protocol_version}
use penguinsync.Protocol.Pairing.{issue, token_ttl}
use penguinsync.Protocol.Qr.{UrlCrate, QrPayload, encode_qr_uri}
use penguinsync.Net.Tls.{unpair as revoke, open_pairing_window}
use penguinsync.Daemon.State
use penguinsync.Daemon.Shared.{Shared, Device1, Waiting, persist_state}

abbrev pub root_path : Str
root_path = str "/org/penguinsync/Daemon"

unfoldable pub device_path : Bytes → Str
device_path id = root_path ++ str "/devices/" ++ to_hex id

pub data FdoError : Type 0 where
  invalid_args : FdoError

-- The QR payload of `start_pairing`; `candidates` are the addresses that the QR code carries.
unfoldable pub pairing_payload : Shared → Bytes → List SocketAddr → QrPayload
pairing_payload s random candidates = record {
  version = protocol_version;
  device_id = s.identity;
  name = s.name;
  addrs = candidates;
  token = random;
}

-- The state after `start_pairing`.
unfoldable pub open_pairing : Shared → Bytes → Instant → Shared
open_pairing s random now = record s {
  trust = open_pairing_window s.trust (now + token_ttl);
  current_token = some (issue random now);
}

-- The whole method: the state, and the URI (`none` for the panic of its encoding) and fingerprint.
unfoldable pub start_pairing :
    UrlCrate → AddrText → Shared → Bytes → Instant → List SocketAddr → Shared × Option Str × Str
start_pairing url text s random now candidates = (
  open_pairing s random now,
  encode_qr_uri url text (pairing_payload s random candidates),
  short_fingerprint s.identity,
)

-- `tx.send(accept)`: nothing happens where the receiver is gone.
unfoldable pub answer : Option Waiting → ℕ → Bool → Option Waiting
answer none channel accept = none
answer (some w) channel accept =
    if w.channel == channel then some (record w { answer = some accept }) else some w

unfoldable pub resolve : Shared → Bytes → Bool → Shared
unfolding answer
resolve s id accept = elim (lookup id s.pending_confirmations) [
  | none ↦ s
  | some channel ↦ record s {
    pending_confirmations = remove id s.pending_confirmations;
    waiting = answer s.waiting channel accept;
  }
]

unfoldable pub confirm_pairing : Shared → Str → Bool → Shared × Result FdoError (Unit {0})
confirm_pairing s device_id accept = elim (from_hex device_id) [
  | none ↦ (s, err invalid_args)
  | some id ↦ (resolve s id accept, ok tt)
]

unfoldable pub forget : Shared → Bytes → Shared
forget s id =
    let s1 = record s { trust = revoke s.trust id; state = State.remove s.state id } in
    let s2 = persist_state s1 in record s2 { objects = remove (device_path id) s2.objects }

unfoldable pub unpair : Shared → Str → Shared × Result FdoError (Unit {0})
unpair s device_id = elim (from_hex device_id) [
  | none ↦ (s, err invalid_args)
  | some id ↦ (forget s id, ok tt)
]

unfoldable pub set_connected : Map Str Device1 → Bytes → Bool → Map Str Device1
set_connected objects id connected = elim (lookup (device_path id) objects) [
  | none ↦ objects
  | some iface ↦ insert (device_path id) (record iface { connected = connected }) objects
]

-- The part of `await_confirmation` before it waits.
unfoldable pub begin_waiting : Shared → SocketAddr → Bytes → Str → Shared
begin_waiting s remote id name = record s {
  pending_confirmations = insert id s.next_channel s.pending_confirmations;
  next_channel = s.next_channel + 1;
  waiting = some (record {
    channel = s.next_channel;
    answer = none;
    remote = remote;
    device_id = id;
    name = name;
  });
}
