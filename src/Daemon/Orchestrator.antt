-- ===== src/Daemon/Orchestrator.antt =====
-- crates/daemon/src/orchestrator.rs: what a listener event does to the shared state. A handshake that
-- needs a human's confirmation stops at `await_confirmation`; `confirmed` is what follows it.
use penguinsync.Base.{
  Bytes, Str, Bool, true, false, [], ◌∷◌, ◌++◌, Option, none, some, bytes_key, if◌then◌else◌,
}
use penguinsync.Base.Map.{Map, lookup, insert, remove}
use penguinsync.Base.Result.{ok, err}
use penguinsync.Base.Time.{Instant}
use penguinsync.Base.Addr.{SocketAddr, addr_key}
use penguinsync.Protocol.Hex.{to_hex, short_fingerprint}
use penguinsync.Protocol.Pairing.{PairingToken, redeem}
use penguinsync.Net.Tls.{is_paired, pin, close_pairing_window}
use penguinsync.Net.Session.{
  SessionEvent, peer_handshake_event, ponged_event, clipboard_received, closed,
}
use penguinsync.Daemon.State
use penguinsync.Daemon.Shared.{
  Shared, ListenerEvent, connected, session, Device1, Waiting, persist_state,
}
use penguinsync.Daemon.Clipboard.{handle_received}
use penguinsync.Daemon.Dbus.{device_path, set_connected, begin_waiting}

unfoldable pub ensure_device_object : Map Str Device1 → Bytes → Str → Map Str Device1
ensure_device_object objects id name = elim (lookup (device_path id) objects) [
  | some _ ↦ objects
  | none ↦
      insert (device_path id) (record { name = name; device_id = to_hex id; connected = false })
        objects
]

unfoldable pub mark_connected : Shared → SocketAddr → Bytes → Str → Shared
mark_connected s remote id name =
    let objects = set_connected (ensure_device_object s.objects id name) id true in
    let s' = record s { objects = objects } in
    elim (lookup remote s.remote_handles) [
      | none ↦ s'
      | some handle ↦ record s' { connected_devices = insert id handle s.connected_devices }
    ]

-- The token after the attempt, and whether it was redeemed.
unfoldable pub redeem_current : Option PairingToken → Bytes → Instant → Option PairingToken × Bool
redeem_current none presented now = (none, false)
redeem_current (some token) presented now =
    let (token', r) = redeem token presented now in
    (some token', elim r [ ok _ ↦ true | err _ ↦ false ])

unfoldable pub request : Shared → SocketAddr → Bytes → Str → Shared
unfolding begin_waiting
request s remote id name =
    begin_waiting
      (record s {
        requests =
            s.requests
            ++ record { device_id = to_hex id; fingerprint = short_fingerprint id; name = name }
              ∷ [];
      })
      remote id name

unfoldable pub handle_unpaired : Shared → SocketAddr → Bytes → Str → Option Bytes → Instant → Shared
unfolding redeem_current request
handle_unpaired s remote id name none now = s
handle_unpaired s remote id name (some presented) now =
    let (token, redeemed) = redeem_current s.current_token presented now in
    let s' = record s { current_token = token } in
    if redeemed then request s' remote id name else s'

unfoldable pub handle_handshake :
    Shared → SocketAddr → Bytes → Str → Option Bytes → Instant → Shared
handle_handshake s remote id name pairing_token now =
    if is_paired s.trust id
    then mark_connected s remote id name
    else handle_unpaired s remote id name pairing_token now

-- The rest of `handle_handshake`, behind the confirmation.
unfoldable pub confirmed : Shared → Waiting → Bool → Shared
confirmed s w false = record s { waiting = none }
confirmed s w true =
    let s1 = record s {
      waiting = none;
      trust = close_pairing_window (pin s.trust w.device_id);
      state = State.upsert s.state w.device_id w.name;
    } in
    mark_connected (persist_state s1) w.remote w.device_id w.name

unfoldable pub on_closed : Shared → SocketAddr → Shared
on_closed s remote =
    let s1 = record s {
      remote_handles = remove remote s.remote_handles;
      remote_to_device = remove remote s.remote_to_device;
    } in
    elim (lookup remote s.remote_to_device) [
      | none ↦ s1
      | some id ↦ record s1 {
        connected_devices = remove id s.connected_devices;
        objects = set_connected s.objects id false;
      }
    ]

unfoldable pub handle_session_event : Shared → SocketAddr → SessionEvent → Instant → Shared
unfolding handle_handshake on_closed
handle_session_event s remote (peer_handshake_event p) now =
    handle_handshake (record s { remote_to_device = insert remote p.device_id s.remote_to_device })
      remote p.device_id p.name p.pairing_token now
handle_session_event s remote (ponged_event rtt) now = s
handle_session_event s remote (clipboard_received clip) now =
    elim (lookup remote s.remote_to_device) [
      | none ↦ s
      | some sender ↦ handle_received s sender clip
    ]
handle_session_event s remote (closed reason) now = on_closed s remote

-- One turn of the loop of `run`.
unfoldable pub handle_event : Shared → ListenerEvent → Instant → Shared
handle_event s (connected remote handle) now = record s {
  remote_handles = insert remote handle s.remote_handles;
}
handle_event s (session remote event) now = handle_session_event s remote event now
