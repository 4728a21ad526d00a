-- ===== src/Tests/Pairings.antt =====
-- A whole pairing, over streams of bytes.
use penguinsync.Base.{
  ◌≡◌, refl, Bytes, str, true, [], ◌∷◌, ◌++◌, Option, none, some, arith, length, drop,
}
use penguinsync.Base.Map.{lookup}
use penguinsync.Base.Addr.{printed}
use penguinsync.Base.Result.{Result, ok, err}
use penguinsync.Protocol.Message.{Message, handshake, encode}
use penguinsync.Protocol.Connection.{handle, own_handshake, new}
use penguinsync.Net.Tls.{is_paired, pin, pairing_open}
use penguinsync.Net.Framing.{to_le_bytes, write_message, write_frame}
use penguinsync.Net.Session.{
  Link, Drive, start, feed, spawned, run_actions, after_write, drive, read_ready,
}
use penguinsync.Net.Session.Opening.{open_session, accept}
use penguinsync.Net.Session.Meeting.{introduced}
use penguinsync.Daemon.NetAddrs.{candidate_addrs}
use penguinsync.Daemon.Dbus.{start_pairing}
use penguinsync.Daemon.World.{run}
use penguinsync.Daemon.World.Pairing.{IsIdle, IsSettled}
use penguinsync.Ffi.Core.{Pairing}
use penguinsync.Ffi.Core.Scan.{pair-start_pairing}
use penguinsync.Ffi.Core.Whole.{pairing_with, run-pair}
use penguinsync.Tests.Crates.{packed, unpack, unpack-packed, bytes_quic, plain_url, plain_addrs}
use penguinsync.Tests.Protocol.{
  desk, phone, desk_id, phone_id, a_token, desk_id-IsArray, phone_id-IsArray, a_token-IsArray,
}
use penguinsync.Tests.Daemon.{fresh_daemon, home}
use penguinsync.Tests.Apps.{fresh_core}

-- A codec of handshakes without capabilities only.
unfoldable put_token : Option Bytes → Bytes
put_token none = []
put_token (some token) = 1 ∷ token

unfoldable take_token : Bytes → Option Bytes
take_token [] = none
take_token (_ ∷ token) = some token

take-put_token : (o : Option Bytes) → take_token (put_token o) ≡ o
unfolding take_token put_token
take-put_token none = refl
take-put_token (some token) = refl

unfoldable to_vec : Message → Result (Unit {0}) Bytes
to_vec (handshake h) = elim h.capabilities [
  | [] ↦ ok (h.version ∷ packed h.device_id (packed h.name (put_token h.pairing_token)))
  | _ ∷ _ ↦ err tt
]
to_vec _ = err tt

unfoldable from_vec : Bytes → Result (Unit {0}) Message
from_vec [] = err tt
from_vec (version ∷ bs) =
    let (id, rest) = unpack bs in
    let (name, token) = unpack rest in
    ok (
      handshake (record {
        version = version;
        device_id = id;
        name = name;
        capabilities = [];
        pairing_token = take_token token;
      }))

from_vec-to_vec : (m : Message) (bs : Bytes) → to_vec m ≡ ok bs → from_vec bs ≡ ok m
unfolding to_vec from_vec
from_vec-to_vec (handshake h) bs e = ground (
  arith,
  unpack-packed h.device_id (packed h.name (put_token h.pairing_token)),
  unpack-packed h.name (put_token h.pairing_token),
  take-put_token h.pairing_token,
)
from_vec-to_vec m bs h = ground arith

abbrev greetings : Link
greetings = record {
  postcard = record {
    Error = Unit;
    to_allocvec = to_vec;
    from_bytes = from_vec;
    from_bytes-to_allocvec = from_vec-to_vec;
  };
  quic = bytes_quic;
  framing_text = λ e. str "framing";
  read_text = λ e. str "read";
}

abbrev hello : Bytes
hello = 1 ∷ packed phone_id (packed (str "phone") (1 ∷ a_token))

abbrev hello_frame : Bytes
hello_frame = to_le_bytes (length hello) ++ hello

abbrev dialer : Drive greetings
dialer = start greetings phone 20 (some a_token) [] [] 0 0

abbrev listener : Drive greetings
listener = start greetings desk 20 none [] hello_frame 0 0

fresh_daemon-IsIdle : IsIdle fresh_daemon
fresh_daemon-IsIdle = record { free = refl; quiet = refl }

-- The code is shown at 3 and presented at 5, and the human accepts.
run-pair_example :
    let heard =
      drop (length listener.events) (drive greetings listener (read_ready 1 5 ∷ [])).events in
    let shown =
      (start_pairing plain_url plain_addrs fresh_daemon a_token 3
        (candidate_addrs fresh_daemon.listen_addr none)).0 in
    (is_paired (pin fresh_core.trust desk_id) desk_id ≡ true)
    × (pairing_open shown.trust 5 ≡ true)
    × IsSettled fresh_daemon
        (run (λ bs. bs) fresh_daemon (pairing_with home heard phone_id a_token 3 5 6 true))
        (introduced phone (some a_token))
        true
unfolding open_session accept start feed spawned run_actions after_write handle own_handshake new
    encode write_message write_frame to_vec to_le_bytes is_paired lookup put_token
run-pair_example =
    let scan =
      pair-start_pairing plain_url plain_addrs fresh_daemon fresh_core a_token 3 5 none
        desk_id-IsArray a_token-IsArray (omega arith) in
    let scanned : Pairing = record {
      addr = printed scan.1;
      token = a_token;
      device_id = desk_id;
      name = str "desk";
    } in
    run-pair plain_url plain_addrs greetings (λ bs. bs) fresh_daemon fresh_core
      (record fresh_core { trust = pin fresh_core.trust desk_id }) phone desk a_token 3 5 6 none
      true scan.0 scanned 20 20 [] [] [] hello_frame 0 0 1 0 0 5 dialer listener hello [] home
      fresh_daemon-IsIdle refl refl desk_id-IsArray phone_id-IsArray a_token-IsArray (omega arith)
      scan.3 scan.5 refl refl refl refl refl (omega arith) refl
