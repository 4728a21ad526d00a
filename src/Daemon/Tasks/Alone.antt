-- ===== src/Daemon/Tasks/Alone.antt =====
-- What the orchestrator does when no other task moves in between: crates/daemon/src/orchestrator.rs,
-- each handler as the sequence of its accesses.
pub mod Marking
use penguinsync.Base.{
  ℕ, zero, suc, ◌+◌, ◌≡◌, ◌⊎◌, inl, inr, refl, Bytes, Str, Bool, true, false, List, [], ◌∷◌, ◌++◌,
  Option, none, some, arith, subst, sym, ap, ◌∙◌, bytes_key, if◌then◌else◌, Option-cases,
  Bool-cases, if-either, ite, ◌=?◌,
}
use penguinsync.Base.Map.{Map, lookup, insert, remove}
use penguinsync.Base.Time.{Instant}
use penguinsync.Base.Addr.{SocketAddr, addr_key}
use penguinsync.Protocol.Clip.{Clip, mime_text_plain}
use penguinsync.Protocol.Hex.{to_hex}
use penguinsync.Net.Tls.{is_paired, pin, close_pairing_window}
use penguinsync.Daemon.State
use penguinsync.Net.Session.{peer_handshake_event, ponged_event, clipboard_received, closed}
use penguinsync.Daemon.Shared.{
  Shared, Device1, ListenerEvent, connected, session, SessionHandle, Waiting, persist_state,
}
use penguinsync.Daemon.Clipboard.{
  handle_received, apply_and_relay, should_broadcast, apply_locally, others, send_all,
}
use penguinsync.Daemon.Dbus.{device_path, set_connected, begin_waiting}
use penguinsync.Daemon.Orchestrator.{
  handle_event, handle_session_event, handle_handshake, handle_unpaired, redeem_current, request,
  mark_connected, ensure_device_object, confirmed, on_closed,
}
use penguinsync.Daemon.Start.{at}
use penguinsync.Daemon.Tasks.{
  Peer, Place, receiving, awaiting, announcing, recording, checking, redeeming, asking, pinning,
  finding_object, adding_object, showing, fetching_handle, promoting, dropping_handle,
  dropping_remote, disconnecting, hiding, registering, upserting, saving, closing_window,
  finding_sender, screening, relaying, dispatching, comparing, applying, begin, advance, peer_of,
  resumed,
}
use penguinsync.Daemon.Tasks.Alone.Marking.{
  resting, iterate, Rests, moves, rests, if-Rests, ite-Rests, marking-Rests,
}

module _ (now : Instant) where
  closed-Rests :
      (s : Shared) (remote : SocketAddr)
      → s.waiting ≡ none
      → Rests now s (dropping_handle remote) (on_closed s remote)
  unfolding advance on_closed
  closed-Rests s remote h =
      moves now s (dropping_handle remote)
        (moves now _ (dropping_remote remote) (by_device (lookup remote s.remote_to_device)))
    where
      dropped : Shared
      dropped = record s {
        remote_handles = remove remote s.remote_handles;
        remote_to_device = remove remote s.remote_to_device;
      }

      by_device :
          (o : Option Bytes)
          → Rests now dropped
              (elim o [ none ↦ receiving | some id ↦ disconnecting id ])
              (elim o [
                | none ↦ dropped
                | some id ↦ record dropped {
                  connected_devices = remove id s.connected_devices;
                  objects = set_connected s.objects id false;
                }
              ])
      by_device none = rests now dropped h
      by_device (some id) = moves now _ (disconnecting id) (moves now _ (hiding id) (rests now _ h))

  applying-Rests :
      (s : Shared) (sender : Bytes) (clip : Clip)
      → s.waiting ≡ none
      → Rests now s
          (applying sender clip)
          (send_all (others sender s.connected_devices) clip (apply_locally s clip))
  unfolding advance apply_locally send_all
  applying-Rests s sender clip h =
      let local = apply_locally s clip in
      let connected_same : local.connected_devices ≡ s.connected_devices = ground arith in
      let waiting_same : local.waiting ≡ none = ground arith in
      subst
        (λ devices.
          Rests now s (applying sender clip) (send_all (others sender devices) clip local))
        connected_same
        (moves now s (applying sender clip) (
          moves now local (relaying sender clip) (
            moves now local (dispatching (others sender local.connected_devices) clip)
              (rests now _ waiting_same))))

  relaying-Rests :
      (s : Shared) (sender : Bytes) (clip : Clip)
      → s.waiting ≡ none
      → Rests now s (comparing sender clip) (apply_and_relay s sender clip)
  unfolding advance apply_and_relay
  relaying-Rests s sender clip h =
      let (last, is_new) = should_broadcast s.last_hash clip.hash in
      let s' = record s { last_hash = last } in
      moves now s (comparing sender clip) (
        if-Rests now is_new s' (applying sender clip) receiving (applying-Rests s' sender clip h)
          (rests now s' h))

  received-Rests :
      (s : Shared) (sender : Bytes) (clip : Clip)
      → s.waiting ≡ none
      → Rests now s (screening sender clip) (handle_received s sender clip)
  unfolding advance handle_received
  received-Rests s sender clip h = moves now s (screening sender clip) (
      if-Rests now (is_paired s.trust sender) s
        (ite (clip.mime =? mime_text_plain) (comparing sender clip) receiving) receiving
        (ite-Rests now (clip.mime =? mime_text_plain) s (comparing sender clip) receiving
          (relaying-Rests s sender clip h) (rests now s h))
        (rests now s h))

  unpaired-Rests :
      (s : Shared) (p : Peer) (token : Option Bytes)
      → s.waiting ≡ none
      → Rests now s (redeeming p token) (handle_unpaired s p.remote p.device_id p.name token now)
  unfolding advance handle_unpaired request begin_waiting iterate
  unpaired-Rests s p none h = moves now s (redeeming p none) (rests now s h)
  unpaired-Rests s p (some presented) h =
      let (token, redeemed) = redeem_current s.current_token presented now in
      let s' = record s { current_token = token } in
      moves now s (redeeming p (some presented)) (
        if-Rests now redeemed s' (asking p) receiving
          (moves now s' (asking p) (moves now _ (registering p) (0, refl))) (rests now s' h))

  -- Each event is handled as `handle_event` has it.
  pub handle_event-Rests :
      (s : Shared) (e : ListenerEvent)
      → s.waiting ≡ none
      → Rests now s (begin e) (handle_event s e now)
  unfolding advance begin handle_event handle_session_event handle_handshake
  handle_event-Rests s (connected remote handle) h =
      moves now s (announcing remote handle) (rests now _ h)
  handle_event-Rests s (session remote (ponged_event rtt)) h = rests now s h
  handle_event-Rests s (session remote (closed reason)) h = closed-Rests s remote h
  handle_event-Rests s (session remote (clipboard_received clip)) h =
      moves now s (finding_sender remote clip) (by_sender (lookup remote s.remote_to_device))
    where
      by_sender :
          (o : Option Bytes)
          → Rests now s
              (elim o [ none ↦ receiving | some sender ↦ screening sender clip ])
              (elim o [ none ↦ s | some sender ↦ handle_received s sender clip ])
      by_sender none = rests now s h
      by_sender (some sender) = received-Rests s sender clip h
  handle_event-Rests s (session remote (peer_handshake_event p)) h =
      let peer : Peer = record { remote = remote; device_id = p.device_id; name = p.name } in
      let s' = record s { remote_to_device = insert remote p.device_id s.remote_to_device } in
      moves now s (recording peer p.pairing_token) (
        moves now s' (checking peer p.pairing_token) (
          if-Rests now (is_paired s'.trust p.device_id) s' (finding_object peer)
            (redeeming peer p.pairing_token) (marking-Rests now s' peer h)
            (unpaired-Rests s' peer p.pairing_token h)))

  -- And what follows the wait is `confirmed`.
  pub confirmed-Rests :
      (s : Shared) (w : Waiting) (accept : Bool)
      → let (s', p') = resumed s w accept in Rests now s' p' (confirmed s w accept)
  unfolding advance confirmed persist_state
  confirmed-Rests s w false = rests now (record s { waiting = none }) refl
  confirmed-Rests s w true =
      let p = peer_of w in
      let s1 = record s {
        waiting = none;
        trust = close_pairing_window (pin s.trust w.device_id);
        state = State.upsert s.state w.device_id w.name;
      } in
      let idle : (persist_state s1).waiting ≡ none = ground arith in
      moves now _ (pinning p) (
        moves now _ (closing_window p) (
          moves now _ (upserting p)
            (moves now s1 (saving p) (marking-Rests now (persist_state s1) p idle))))
