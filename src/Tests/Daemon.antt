-- ===== src/Tests/Daemon.antt =====
-- Runs of the desktop's daemon.
use penguinsync.Base.{
  ◌+◌, ◌≤◌, ◌≡◌, refl, str, true, false, List, [], ◌∷◌, none, some, arith, All, length, ite, ◌=?◌,
  bytes_key, bytes_discrete, ℕ_discrete,
}
use penguinsync.Base.Map.{lookup, elem}
use penguinsync.Base.Addr.{SocketAddr, v4, addr_key}
use penguinsync.Protocol.Hex.{to_hex}
use penguinsync.Protocol.Hex.RoundTrip.{from_hex-to_hex}
use penguinsync.Protocol.Connection.{PeerHandshake}
use penguinsync.Net.Tls.{is_paired, new}
use penguinsync.Net.Session.{keepalive_timed_out_closed, closed, peer_handshake_event}
use penguinsync.Daemon.State.{empty, upsert, remove, device_ids}
use penguinsync.Daemon.State.Devices.{IsCanonical, device_ids_lem}
use penguinsync.Daemon.Shared.{Shared, SessionHandle, connected, session}
use penguinsync.Daemon.Clipboard.{handle_received, broadcast}
use penguinsync.Daemon.Clipboard.Echo.{from_peer, local, see_all, handle_received-no_echo}
use penguinsync.Daemon.Dbus.{unpair}
use penguinsync.Daemon.Orchestrator.{handle_event}
use penguinsync.Daemon.Connections.{handshake_then_close, unpair_connected}
use penguinsync.Daemon.World.{Input, arrives, turn, start_pairing, confirm, run}
use penguinsync.Daemon.World.Requests.{count_starts, run-requests}
use penguinsync.Daemon.World.Restart.{IsStarted}
use penguinsync.Tests.Protocol.{
  desk_id, phone_id, phone_id-IsArray, desk_id-IsArray, a_token, a_clip,
}

abbrev pub home : SocketAddr
home = record { ip = v4 1; port = 10; flowinfo = 0; scope_id = 0 }

abbrev roaming : SocketAddr
roaming = record { ip = v4 2; port = 10; flowinfo = 0; scope_id = 0 }

abbrev a_handle : SessionHandle
a_handle = record { remote = home; session = 1 }

abbrev pub a_peer : PeerHandshake
a_peer = record {
  device_id = phone_id;
  name = str "phone";
  capabilities = [];
  pairing_token = some a_token;
}

-- A daemon that has just been started, without a paired device.
abbrev pub fresh_daemon : Shared
fresh_daemon = record {
  identity = desk_id;
  name = str "desk";
  listen_addr = record { ip = v4 0; port = 10; flowinfo = 0; scope_id = 0 };
  trust = record { paired = []; pairing_deadline = none };
  state = empty;
  current_token = none;
  pending_confirmations = [];
  remote_to_device = [];
  remote_handles = [];
  connected_devices = [];
  last_hash = none;
  has_backend = true;
  disk = empty;
  disk_writable = true;
  objects = [];
  requests = [];
  applied = [];
  sent = [];
  next_channel = 0;
  waiting = none;
  inbox = [];
}

-- One that has the phone paired, and connected from home.
abbrev pub paired_daemon : Shared
paired_daemon = record fresh_daemon {
  trust = record { paired = (phone_id, tt) ∷ []; pairing_deadline = none };
  remote_to_device = (home, phone_id) ∷ [];
  remote_handles = (home, a_handle) ∷ (roaming, record { remote = roaming; session = 2 }) ∷ [];
  connected_devices = (phone_id, a_handle) ∷ [];
}

abbrev pairing_inputs : List Input
pairing_inputs =
    start_pairing a_token 0
    ∷ arrives (connected home a_handle)
    ∷ arrives (session home (peer_handshake_event a_peer))
    ∷ turn 1
    ∷ turn 2
    ∷ confirm (to_hex phone_id) true
    ∷ turn 3
    ∷ []

run-requests_example :
    length (run (λ bs. bs) fresh_daemon pairing_inputs).requests
    ≤ length fresh_daemon.requests + count_starts pairing_inputs
run-requests_example = run-requests (λ bs. bs) fresh_daemon pairing_inputs refl

fresh_daemon-IsStarted : IsStarted fresh_daemon
unfolding new device_ids
fresh_daemon-IsStarted = record { loaded = refl; trusting = refl; quiet = refl; idle = refl }

device_ids_lem_example :
    (elem desk_id (device_ids (upsert empty phone_id (str "phone")))
      ≡ ite (phone_id =? desk_id) true (elem desk_id (device_ids empty)))
    × (elem desk_id (device_ids (remove empty phone_id))
        ≡ ite (phone_id =? desk_id) false (elem desk_id (device_ids empty)))
    × All IsCanonical (upsert empty phone_id (str "phone")).devices
    × All IsCanonical (remove empty phone_id).devices
device_ids_lem_example =
    device_ids_lem empty phone_id desk_id (str "phone") phone_id-IsArray desk_id-IsArray tt

handle_received-no_echo_example :
    see_all
      (λ bs. bs)
      (handle_received paired_daemon phone_id a_clip)
      (local a_clip.mime (some a_clip.content) ∷ from_peer desk_id a_clip ∷ [])
    ≡ handle_received paired_daemon phone_id a_clip
unfolding is_paired lookup bytes_discrete ℕ_discrete
handle_received-no_echo_example =
    handle_received-no_echo (λ bs. bs) paired_daemon phone_id a_clip
      (local a_clip.mime (some a_clip.content) ∷ from_peer desk_id a_clip ∷ []) refl
      (record { plain = refl; small = omega arith; hashed = refl })
      (refl, ((record { plain = refl; small = omega arith; hashed = refl }, refl), tt))

handshake_then_close_example :
    let s1 = handle_event paired_daemon (session roaming (peer_handshake_event a_peer)) 1 in
    let s2 = handle_event s1 (session home (closed keepalive_timed_out_closed)) 2 in
    (lookup phone_id s1.connected_devices ≡ some (record { remote = roaming; session = 2 }))
    × (lookup roaming s2.remote_handles ≡ some (record { remote = roaming; session = 2 }))
    × (lookup phone_id s2.connected_devices ≡ none)
unfolding is_paired lookup bytes_discrete ℕ_discrete
handshake_then_close_example =
    handshake_then_close paired_daemon home roaming (record { remote = roaming; session = 2 })
      a_peer keepalive_timed_out_closed 1 2 (λ e. ground arith) (ground arith) (ground arith) refl

unpair_connected_example :
    let s' = (unpair paired_daemon (to_hex phone_id)).0 in
    (handle_received s' phone_id a_clip ≡ s')
    × ((broadcast s' a_clip).sent ≡ (broadcast paired_daemon a_clip).sent)
unpair_connected_example =
    unpair_connected paired_daemon (to_hex phone_id) phone_id a_clip a_clip
      (from_hex-to_hex phone_id phone_id-IsArray)
