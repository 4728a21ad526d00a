-- ===== src/Daemon/Tasks.antt =====
-- The daemon's tasks one access at a time: crates/daemon/src/orchestrator.rs, dbus.rs and clipboard.rs
-- between one lock and the next. Any task may move between two accesses of another. An object of the
-- bus is looked up and changed in one step by `set_connected`.
pub mod Ticks
pub mod Saved
pub mod Approval
pub mod Alone
pub mod Refines
pub mod Races
use penguinsync.Base.{
  ℕ, zero, suc, ◌+◌, Bytes, Str, Bool, true, false, List, [], ◌∷◌, ◌++◌, Option, none, some, ite,
  ◌=?◌, bytes_key, if◌then◌else◌,
}
use penguinsync.Base.Map.{lookup, insert, remove}
use penguinsync.Base.Result.{ok, err}
use penguinsync.Base.Time.{Instant}
use penguinsync.Base.Addr.{SocketAddr, addr_key}
use penguinsync.Protocol.Hex.{to_hex, from_hex, short_fingerprint}
use penguinsync.Protocol.Clip.{Clip, mime_text_plain}
use penguinsync.Protocol.Clip
use penguinsync.Protocol.Pairing.{issue, token_ttl}
use penguinsync.Net.Tls.{
  is_paired, pin, close_pairing_window, open_pairing_window, unpair as revoke,
}
use penguinsync.Net.Session.{peer_handshake_event, ponged_event, clipboard_received, closed}
use penguinsync.Daemon.State
use penguinsync.Daemon.Shared.{
  Shared, ListenerEvent, SessionHandle, connected, session, Waiting, persist_state,
}
use penguinsync.Daemon.Clipboard.{should_broadcast, send_all, values, others, apply_locally}
use penguinsync.Daemon.Dbus.{device_path, set_connected, begin_waiting, resolve}
use penguinsync.Daemon.Orchestrator.{redeem_current}
use penguinsync.Daemon.Start.{at}

-- Whose handshake is handled, and where it came from.
pub record Peer : Type 0 where
  pub remote : SocketAddr
  pub device_id : Bytes
  pub name : Str

-- Where the orchestrator stands: its next access, with the local variables that are live there.
pub data Place : Type 0 where
  receiving : Place
  announcing : SocketAddr → SessionHandle → Place
  recording checking redeeming : Peer → (token : Option Bytes) → Place
  asking registering : Peer → Place
  awaiting : Place
  pinning closing_window upserting saving : Peer → Place
  finding_object adding_object showing fetching_handle : Peer → Place
  promoting : Bytes → SessionHandle → Place
  dropping_handle dropping_remote : SocketAddr → Place
  disconnecting hiding : Bytes → Place
  finding_sender : SocketAddr → Clip → Place
  screening comparing applying relaying : (sender : Bytes) → Clip → Place
  dispatching : List SessionHandle → Clip → Place

-- Where a method of `Daemon1` stands.
pub data Call : Type 0 where
  opening_window storing_token : (random : Bytes) (now : Instant) → Call
  answering : (device_id : Str) (accept : Bool) → Call
  revoking : (device_id : Str) → Call
  removing rewriting unregistering : Bytes → Call

-- Where `watch_and_broadcast` stands.
pub data Watch : Type 0 where
  watching : Watch
  noticed collecting : Clip → Watch
  sending : List SessionHandle → Clip → Watch

unfoldable pub begin : ListenerEvent → Place
begin (connected remote handle) = announcing remote handle
begin (session remote (peer_handshake_event p)) =
    recording (record { remote = remote; device_id = p.device_id; name = p.name }) p.pairing_token
begin (session remote (ponged_event rtt)) = receiving
begin (session remote (clipboard_received clip)) = finding_sender remote clip
begin (session remote (closed reason)) = dropping_handle remote

unfoldable pub receive : Shared → List ListenerEvent → Shared × Place
unfolding begin
receive s [] = (s, receiving)
receive s (e ∷ rest) = (record s { inbox = rest }, begin e)

abbrev pub peer_of : Waiting → Peer
peer_of w = record { remote = w.remote; device_id = w.device_id; name = w.name }

-- Behind the wait: the receiver is dropped, and the pairing goes on or not.
abbrev pub resumed : Shared → Waiting → Bool → Shared × Place
resumed s w true = (record s { waiting = none }, pinning (peer_of w))
resumed s w false = (record s { waiting = none }, receiving)

unfoldable pub resume : Shared → Option Waiting → Shared × Place
resume s none = (s, awaiting)
resume s (some w) = elim w.answer [ none ↦ (s, awaiting) | some accept ↦ resumed s w accept ]

-- The time of the wait is up.
unfoldable pub expire : Shared → Place → Option Waiting → Shared × Place
expire s awaiting (some w) = elim w.answer [
  | none ↦ resumed s w false
  | some accept ↦ resumed s w accept
]
expire s place o = (s, place)

-- One access of the orchestrator.
unfoldable pub advance : Shared → Place → Instant → Shared × Place
unfolding receive resume
advance s receiving now = receive s s.inbox
advance s (announcing remote handle) now =
    (record s { remote_handles = insert remote handle s.remote_handles }, receiving)
advance s (recording p token) now = (
  record s { remote_to_device = insert p.remote p.device_id s.remote_to_device },
  checking p token,
)
advance s (checking p token) now =
    (s, if is_paired s.trust p.device_id then finding_object p else redeeming p token)
advance s (redeeming p none) now = (s, receiving)
advance s (redeeming p (some presented)) now =
    let (token, redeemed) = redeem_current s.current_token presented now in
    (record s { current_token = token }, if redeemed then asking p else receiving)
advance s (asking p) now = (
  record s {
    requests =
        s.requests
        ++ record {
          device_id = to_hex p.device_id;
          fingerprint = short_fingerprint p.device_id;
          name = p.name;
        }
          ∷ [];
  },
  registering p,
)
advance s (registering p) now = (begin_waiting s p.remote p.device_id p.name, awaiting)
advance s awaiting now = resume s s.waiting
advance s (pinning p) now = (record s { trust = pin s.trust p.device_id }, closing_window p)
advance s (closing_window p) now = (record s { trust = close_pairing_window s.trust }, upserting p)
advance s (upserting p) now =
    (record s { state = State.upsert s.state p.device_id p.name }, saving p)
advance s (saving p) now = (persist_state s, finding_object p)
advance s (finding_object p) now = (
  s,
  elim (lookup (device_path p.device_id) s.objects) [ some _ ↦ showing p | none ↦ adding_object p ],
)
advance s (adding_object p) now = (
  record s {
    objects =
        at s.objects (device_path p.device_id)
          (record { name = p.name; device_id = to_hex p.device_id; connected = false });
  },
  showing p,
)
advance s (showing p) now =
    (record s { objects = set_connected s.objects p.device_id true }, fetching_handle p)
advance s (fetching_handle p) now = (
  s,
  elim (lookup p.remote s.remote_handles) [
    | none ↦ receiving
    | some handle ↦ promoting p.device_id handle
  ],
)
advance s (promoting id handle) now =
    (record s { connected_devices = insert id handle s.connected_devices }, receiving)
advance s (dropping_handle remote) now =
    (record s { remote_handles = remove remote s.remote_handles }, dropping_remote remote)
advance s (dropping_remote remote) now = (
  record s { remote_to_device = remove remote s.remote_to_device },
  elim (lookup remote s.remote_to_device) [ none ↦ receiving | some id ↦ disconnecting id ],
)
advance s (disconnecting id) now =
    (record s { connected_devices = remove id s.connected_devices }, hiding id)
advance s (hiding id) now = (record s { objects = set_connected s.objects id false }, receiving)
advance s (finding_sender remote clip) now = (
  s,
  elim (lookup remote s.remote_to_device) [
    | none ↦ receiving
    | some sender ↦ screening sender clip
  ],
)
advance s (screening sender clip) now = (
  s,
  if is_paired s.trust sender
      then ite (clip.mime =? mime_text_plain) (comparing sender clip) receiving
      else receiving,
)
advance s (comparing sender clip) now =
    let (last, is_new) = should_broadcast s.last_hash clip.hash in
    (record s { last_hash = last }, if is_new then applying sender clip else receiving)
advance s (applying sender clip) now = (apply_locally s clip, relaying sender clip)
advance s (relaying sender clip) now = (s, dispatching (others sender s.connected_devices) clip)
advance s (dispatching handles clip) now = (send_all handles clip s, receiving)

-- One access of a method; `none` when it has returned.
unfoldable pub proceed : Shared → Call → Shared × Option Call
proceed s (opening_window random now) = (
  record s { trust = open_pairing_window s.trust (now + token_ttl) },
  some (storing_token random now),
)
proceed s (storing_token random now) = (record s { current_token = some (issue random now) }, none)
proceed s (answering device_id accept) = elim (from_hex device_id) [
  | none ↦ (s, none)
  | some id ↦ (resolve s id accept, none)
]
proceed s (revoking device_id) = elim (from_hex device_id) [
  | none ↦ (s, none)
  | some id ↦ (record s { trust = revoke s.trust id }, some (removing id))
]
proceed s (removing id) = (record s { state = State.remove s.state id }, some (rewriting id))
proceed s (rewriting id) = (persist_state s, some (unregistering id))
proceed s (unregistering id) = (record s { objects = remove (device_path id) s.objects }, none)

-- A notification, with what the backend reads for it, when the loop waits for one.
unfoldable pub notice : (Bytes → Bytes) → Watch → Str → Option Bytes → Watch
notice blake3 watching mime read =
    ite (mime =? mime_text_plain)
      (elim read [
        | none ↦ watching
        | some bytes ↦ elim (Clip.new blake3 mime bytes) [
          | err e ↦ watching
          | ok clip ↦ noticed clip
        ]
      ])
      watching
notice blake3 w mime read = w

-- One access of the loop.
unfoldable pub watch_on : Shared → Watch → Shared × Watch
watch_on s watching = (s, watching)
watch_on s (noticed clip) =
    let (last, is_new) = should_broadcast s.last_hash clip.hash in
    (record s { last_hash = last }, if is_new then collecting clip else watching)
watch_on s (collecting clip) = (s, sending (values s.connected_devices) clip)
watch_on s (sending handles clip) = (send_all handles clip s, watching)
