-- ===== src/Ffi/Core.antt =====
-- crates/ffi/src/core.rs: the handle object of the app. Its runtime and the mutex round the active
-- session are left out; sessions are told apart by numbers.
pub mod Hearing
pub mod Forwarding
pub mod Scan
pub mod Whole
pub mod Opening
pub mod Reopening
use penguinsync.Base.Utf8.{is_utf8}
use penguinsync.Base.{
  ℕ, zero, suc, ◌/◌, ◌%◌, ◌^◌, Bytes, Str, Bool, true, false, ◌&&◌, not, List, [], ◌∷◌, ◌++◌,
  Option, none, some, ltb, leb, ◌==◌, if◌then◌else◌,
}
use penguinsync.Base.Result.{Result, ok, err}
use penguinsync.Base.Addr.{SocketAddr, AddrText}
use penguinsync.Protocol.Hex.{to_hex}
use penguinsync.Protocol.Message.{protocol_version}
use penguinsync.Protocol.Clip.{Clip, ClipError, mime_text_plain}
use penguinsync.Protocol.Clip
use penguinsync.Protocol.Qr.{UrlCrate, QrPayload, QrParseError, decode_qr_uri}
use penguinsync.Net.Tls.{TrustStore, pin}
use penguinsync.Net.Tls
use penguinsync.Net.Session.{
  SessionEvent, peer_handshake_event, ponged_event, clipboard_received, closed, CloseReason,
}
use penguinsync.Net.Dialer.{DialerEvent, connected, session, reconnecting}
use penguinsync.Ffi.State.{PersistedPeers, upsert, device_ids}

-- The texts inside the errors are given by what they say.
pub data InvalidQr : Type 0 where
  unreadable : QrParseError → InvalidQr
  other_version : ℕ → InvalidQr
  no_candidate_address : InvalidQr

pub data CoreError : Type 0 where
  invalid_qr : InvalidQr → CoreError
  network : Str → CoreError
  invalid_clipboard : ClipError → CoreError
  not_connected : CoreError

pub record PenguinSyncCore : Type 0 where
  pub trust : TrustStore
  pub active_session : Option ℕ
  -- the file at `peers_path`, and whether it can be written
  pub peers : PersistedPeers
  pub peers_writable : Bool
  -- the clips that sessions were given
  pub sent : List (ℕ × Clip)

-- What the constructor ends with, after the loading of the identity and the file.
unfoldable pub new : PersistedPeers → Bool → PenguinSyncCore
new peers writable = record {
  trust = Tls.new (device_ids peers);
  active_session = none;
  peers = peers;
  peers_writable = writable;
  sent = [];
}

-- What the two tasks that `pair` spawns are started with.
pub record Pairing : Type 0 where
  pub addr : SocketAddr
  pub token : Bytes
  pub device_id : Bytes
  pub name : Str

unfoldable pub pair_with :
    PenguinSyncCore
    → QrPayload
    → List SocketAddr
    → Result Str (Unit {0})
    → PenguinSyncCore × Result CoreError Pairing
pair_with core payload [] endpoint = (core, err (invalid_qr no_candidate_address))
pair_with core payload (addr ∷ _) endpoint =
    let core' = record core { trust = pin core.trust payload.device_id } in
    (
      core',
      elim endpoint [
        | err e ↦ err (network e)
        | ok _ ↦ ok (record {
          addr = addr;
          token = payload.token;
          device_id = payload.device_id;
          name = payload.name;
        })
      ],
    )

-- `endpoint` is what binding the socket gives.
unfoldable pub pair :
    UrlCrate
    → AddrText
    → PenguinSyncCore
    → Str
    → Result Str (Unit {0})
    → PenguinSyncCore × Result CoreError Pairing
unfolding pair_with
pair url text core qr_uri endpoint = elim (decode_qr_uri url text qr_uri) [
  | err e ↦ (core, err (invalid_qr (unreadable e)))
  | ok payload ↦
      if payload.version == protocol_version
      then pair_with core payload payload.addrs endpoint
      else (core, err (invalid_qr (other_version payload.version)))
]

unfoldable pub send_clipboard :
    (Bytes → Bytes) → PenguinSyncCore → Str → PenguinSyncCore × Result CoreError (Unit {0})
send_clipboard blake3 core text = elim (Clip.new blake3 mime_text_plain text) [
  | err e ↦ (core, err (invalid_clipboard e))
  | ok clip ↦ elim core.active_session [
    | none ↦ (core, err not_connected)
    | some handle ↦ (record core { sent = core.sent ++ (handle, clip) ∷ [] }, ok tt)
  ]
]

pub data CoreEvent : Type 0 where
  peer_handshake : (device_id name : Str) → CoreEvent
  ponged : (rtt_ms : ℕ) → CoreEvent
  disconnected : CloseReason → CoreEvent
  reconnecting_in : (attempt delay_ms : ℕ) → CoreEvent
  clipboard_text : Str → CoreEvent

-- `as_millis() as u64` of a number of nanoseconds.
abbrev millis : ℕ → ℕ
millis d = d / 1000000 % 2 ^ 64

unfoldable pub to_core_event : DialerEvent → Option CoreEvent
unfolding is_utf8
to_core_event (connected _) = none
to_core_event (reconnecting attempt delay) = some (reconnecting_in attempt (millis delay))
to_core_event (session (peer_handshake_event p)) = some (peer_handshake (to_hex p.device_id) p.name)
to_core_event (session (clipboard_received clip)) =
    if is_utf8 clip.content then some (clipboard_text clip.content) else none
to_core_event (session (ponged_event rtt)) = some (ponged (millis rtt))
to_core_event (session (closed reason)) = some (disconnected reason)

-- The local variable of `forward_events`, with the core that it shares and what the listener heard.
pub record Forward : Type 0 where
  pub core : PenguinSyncCore
  pub persisted : Bool
  pub heard : List CoreEvent

unfoldable pub set_active : PenguinSyncCore → DialerEvent → PenguinSyncCore
set_active core (connected handle) = record core { active_session = some handle }
set_active core (session (closed _)) = record core { active_session = none }
set_active core _ = core

abbrev pub is_handshake : DialerEvent → Bool
is_handshake (session (peer_handshake_event _)) = true
is_handshake _ = false

unfoldable pub save_peer : PenguinSyncCore → Bytes → Str → PenguinSyncCore
save_peer core device_id name =
    if core.peers_writable then record core { peers = upsert core.peers device_id name } else core

-- One round of the loop.
unfoldable pub forward_event : Bytes → Str → Forward → DialerEvent → Forward
unfolding set_active save_peer to_core_event
forward_event device_id name f event =
    let core = set_active f.core event in
    let first = not f.persisted && is_handshake event in
    record {
      core = if first then save_peer core device_id name else core;
      persisted = if first then true else f.persisted;
      heard = elim (to_core_event event) [ none ↦ f.heard | some e ↦ f.heard ++ e ∷ [] ];
    }

unfoldable pub forward_events : Bytes → Str → Forward → List DialerEvent → Forward
forward_events device_id name f [] = f
forward_events device_id name f (e ∷ rest) =
    forward_events device_id name (forward_event device_id name f e) rest
