-- ===== src/Daemon/Connections.antt =====
-- The table of connected devices (crates/daemon/src/orchestrator.rs) against what else goes on: a
-- device that comes back on a new connection, and one that is unpaired.
use penguinsync.Base.{◌≡◌, ◌≢◌, Bytes, Str, true, none, some, arith, bytes_key}
use penguinsync.Base.Map.{lookup, insert, lookup-insert, lookup-remove}
use penguinsync.Base.Time.{Instant}
use penguinsync.Base.Addr.{SocketAddr, addr_key}
use penguinsync.Protocol.Clip.{Clip}
use penguinsync.Protocol.Hex.{from_hex}
use penguinsync.Protocol.Connection.{PeerHandshake}
use penguinsync.Net.Tls.{is_paired}
use penguinsync.Net.Tls.Trust.{is_paired-unpair}
use penguinsync.Net.Session.{peer_handshake_event, closed, CloseReason}
use penguinsync.Daemon.Shared.{Shared, SessionHandle, session, persist_state}
use penguinsync.Daemon.Clipboard.{handle_received, broadcast, send_all, should_broadcast}
use penguinsync.Daemon.Dbus.{unpair, forget}
use penguinsync.Daemon.Orchestrator.{
  handle_event, handle_session_event, handle_handshake, mark_connected, on_closed,
}

-- A paired device whose handshake arrives on a connection that the listener has announced is
-- connected through it. When an older connection of the same device then closes, the device is
-- counted as not connected, though its new connection is still there.
pub handshake_then_close :
    (s : Shared) (old new : SocketAddr) (handle : SessionHandle) (p : PeerHandshake)
    (reason : CloseReason) (t1 t2 : Instant)
    → old ≢ new
    → lookup old s.remote_to_device ≡ some p.device_id
    → lookup new s.remote_handles ≡ some handle
    → is_paired s.trust p.device_id ≡ true
    → let s1 = handle_event s (session new (peer_handshake_event p)) t1 in
      let s2 = handle_event s1 (session old (closed reason)) t2 in
      (lookup p.device_id s1.connected_devices ≡ some handle)
      × (lookup new s2.remote_handles ≡ some handle)
      × (lookup p.device_id s2.connected_devices ≡ none)
unfolding handle_event handle_session_event handle_handshake mark_connected on_closed
handshake_then_close s old new handle p reason t1 t2 ne h1 h2 h3 = (
  ground (arith, lookup-insert p.device_id p.device_id handle s.connected_devices),
  ground (
    arith,
    lookup-insert new old p.device_id s.remote_to_device,
    lookup-remove old new s.remote_handles,
  ),
  ground (
    arith,
    lookup-insert new old p.device_id s.remote_to_device,
    lookup-remove p.device_id p.device_id (insert p.device_id handle s.connected_devices),
  ),
)

-- After `unpair` of a device its clips are dropped. What the daemon sends is what it was before: a
-- device that is still connected goes on getting the local clipboard.
pub unpair_connected :
    (s : Shared) (device_id : Str) (id : Bytes) (clip received : Clip)
    → from_hex device_id ≡ some id
    → let s' = (unpair s device_id).0 in
      (handle_received s' id received ≡ s') × ((broadcast s' clip).sent ≡ (broadcast s clip).sent)
unfolding unpair forget persist_state handle_received broadcast send_all should_broadcast
unpair_connected s device_id id clip received h =
    (ground (arith, is_paired-unpair s.trust id id), ground arith)
