-- ===== src/Daemon/Delivery.antt =====
-- From the phone's clipboard to the desktop's: crates/net/src/session.rs on both sides, then
-- crates/daemon/src/orchestrator.rs and clipboard.rs.
use penguinsync.Base.{
  ℕ, ◌≢◌, ◌↔◌, ◌⊎◌, ◌≡◌, subst, Option-cases, inl, inr, refl, Bytes, Str, true, List, [], ◌∷◌, ◌++◌,
  Option, none, some, arith, length, drop, ap, sym, ◌∙◌, All, map, ite, ◌=?◌, bytes_key,
  drop-append_length,
}
use mathlib.Core.List.{append_assoc, append-nil}
use penguinsync.Base.Map.{Map, lookup}
use penguinsync.Base.Time.{Instant}
use penguinsync.Base.Addr.{SocketAddr, addr_key}
use penguinsync.Protocol.Clip.{Clip, mime_text_plain}
use penguinsync.Protocol.Connection.{ready}
use penguinsync.Net.Tls.{is_paired}
use penguinsync.Net.Session.{Link, Drive, drive, running, SessionEvent, clipboard_received}
use penguinsync.Net.Session.Carrying.{IsUp, IsSendable, sends, reads, drive-carries}
use penguinsync.Daemon.Shared.{Shared, SessionHandle, session}
use penguinsync.Daemon.Clipboard.{
  handle_received, apply_and_relay, should_broadcast, apply_locally, send_all, others,
}
use penguinsync.Daemon.Orchestrator.{handle_event, handle_session_event}

-- The orchestrator handles what the listener forwards of one session.
unfoldable pub handle_all : Shared → SocketAddr → List SessionEvent → Instant → Shared
handle_all s remote [] now = s
handle_all s remote (e ∷ rest) now =
    handle_all (handle_event s (session remote e) now) remote rest now

-- The clips without those whose hash is that of the one just before them.
unfoldable pub written : Option Bytes → List Clip → List Clip
written last [] = []
written none (clip ∷ rest) = clip ∷ written (some clip.hash) rest
written (some last) (clip ∷ rest) =
    ite (last =? clip.hash) (written (some last) rest) (clip ∷ written (some clip.hash) rest)

-- What the backend is asked to write for these clips, and what is queued for these sessions.
abbrev to_clipboard : List Clip → List (Str × Bytes)
to_clipboard clips = map (λ clip. (clip.mime, clip.content)) clips

unfoldable pub relayed : List SessionHandle → List Clip → List (SessionHandle × Clip)
relayed handles [] = []
relayed handles (clip ∷ rest) = map (λ h. (h, clip)) handles ++ relayed handles rest

-- The orchestrator knows the session's device, which is paired, and there is a clipboard.
pub record IsListening (s : Shared) (remote : SocketAddr) (id : Bytes) : Type 0 where
  pub known : lookup remote s.remote_to_device ≡ some id
  pub paired : is_paired s.trust id ≡ true
  pub backend : s.has_backend ≡ true

-- The handle is the map's entry for some device other than this one.
abbrev pub IsOther : Bytes → Map Bytes SessionHandle → SessionHandle → Type 0
IsOther sender [] h = ⊥
IsOther sender ((id, handle) ∷ rest) h = ((id ≢ sender) × (handle ≡ h)) ⊎ IsOther sender rest h

abbrev pub IsIn : SessionHandle → List SessionHandle → Type 0
IsIn h [] = ⊥
IsIn h (x ∷ xs) = (x ≡ h) ⊎ IsIn h xs

others_iff :
    (sender : Bytes) (m : Map Bytes SessionHandle) (h : SessionHandle)
    → IsIn h (others sender m) ↔ IsOther sender m h
unfolding others
others_iff sender [] h = (λ e. e, λ e. e)
others_iff sender ((id, handle) ∷ rest) h = ground (arith, others_iff sender rest h)

-- The part of the state that a received clip leaves as it is.
record IsKept (s s' : Shared) : Type 0 where
  devices : s'.remote_to_device ≡ s.remote_to_device
  trust : s'.trust ≡ s.trust
  backend : s'.has_backend ≡ s.has_backend
  connections : s'.connected_devices ≡ s.connected_devices

received_new :
    (s : Shared) (id : Bytes) (clip : Clip) (rest : List Clip) (last : Option Bytes)
    → s.last_hash ≡ last
    → is_paired s.trust id ≡ true
    → s.has_backend ≡ true
    → clip.mime ≡ mime_text_plain
    → let s' = handle_received s id clip in
      let handles = others id s.connected_devices in
      IsKept s s'
      × (s'.applied ++ to_clipboard (written s'.last_hash rest)
          ≡ s.applied ++ to_clipboard (written last (clip ∷ rest)))
      × (s'.sent ++ relayed handles (written s'.last_hash rest)
          ≡ s.sent ++ relayed handles (written last (clip ∷ rest)))
unfolding handle_received apply_and_relay should_broadcast apply_locally send_all written relayed
received_new s id clip rest last h paired backend plain =
    let handles = others id s.connected_devices in
    let on = written (some clip.hash) rest in
    let one = append_assoc s.applied ((clip.mime, clip.content) ∷ []) (to_clipboard on) in
    let each = append_assoc s.sent (map (λ h. (h, clip)) handles) (relayed handles on) in
    elim (Option-cases last) [
      | inl e ↦ (
        record {
          devices = ground arith;
          trust = ground arith;
          backend = ground arith;
          connections = ground arith;
        },
        ground (arith, one),
        ground (arith, each),
      )
      | inr (hash, e) ↦ (
        record {
          devices = ground arith;
          trust = ground arith;
          backend = ground arith;
          connections = ground arith;
        },
        ground (arith, one),
        ground (arith, each),
      )
    ]

received_once :
    (s : Shared) (remote : SocketAddr) (id : Bytes) (clip : Clip) (rest : List Clip) (now : Instant)
    → IsListening s remote id
    → clip.mime ≡ mime_text_plain
    → let s' = handle_event s (session remote (clipboard_received clip)) now in
      let handles = others id s.connected_devices in
      IsListening s' remote id
      × (s'.connected_devices ≡ s.connected_devices)
      × (s'.applied ++ to_clipboard (written s'.last_hash rest)
          ≡ s.applied ++ to_clipboard (written s.last_hash (clip ∷ rest)))
      × (s'.sent ++ relayed handles (written s'.last_hash rest)
          ≡ s.sent ++ relayed handles (written s.last_hash (clip ∷ rest)))
unfolding handle_event handle_session_event
received_once s remote id clip rest now h plain =
    let (kept, applied, sent) =
      received_new s id clip rest s.last_hash refl h.paired h.backend plain in
    rw (h.known, handle_event, handle_session_event)
      (
        record {
          known = ap (lookup remote) kept.devices ∙ h.known;
          paired = ap (λ t. is_paired t id) kept.trust ∙ h.paired;
          backend = kept.backend ∙ h.backend;
        },
        kept.connections,
        applied,
        sent,
      )

handle_all-delivers :
    (s : Shared) (remote : SocketAddr) (id : Bytes) (clips : List Clip) (now : Instant)
    → IsListening s remote id
    → All (λ clip. clip.mime ≡ mime_text_plain) clips
    → let after = handle_all s remote (map clipboard_received clips) now in
      let new = written s.last_hash clips in
      (after.applied ≡ s.applied ++ to_clipboard new)
      × (after.sent ≡ s.sent ++ relayed (others id s.connected_devices) new)
unfolding handle_all written relayed
handle_all-delivers s remote id [] now h plain =
    (sym (append-nil s.applied), sym (append-nil s.sent))
handle_all-delivers s remote id (clip ∷ rest) now h (plain, later) =
    let (listens, same, applied, sent) = received_once s remote id clip rest now h plain in
    let s' = handle_event s (session remote (clipboard_received clip)) now in
    let (applied', sent') = handle_all-delivers s' remote id rest now listens later in
    (
      applied' ∙ applied,
      sent' ∙ ap (λ c. s'.sent ++ relayed (others id c) (written s'.last_hash rest)) same ∙ sent,
    )

-- Behind their handshakes, the phone's session and the desktop's are joined by streams; the desktop's
-- has not ended, and the phone's still takes commands. The phone sends clips of plain text, each
-- within the frame limit, and its session goes on; their bytes reach the desktop, whose session makes
-- as many reads, and the orchestrator handles the events of these reads. If it knows the session's
-- device, the device is paired and there is a clipboard backend, then that backend is asked to write
-- the clips in their order, each once: only one whose hash, as it was sent, is that of the one just
-- before it is left out. The same clips, in the same order, are queued for some sessions, which are the
-- entries of the connected devices other than the sender.
pub drive-handle_all :
    (link : Link) (phone desk : Drive link) (clips : List Clip) (n n' : ℕ) (c c' now : Instant)
    (left : Bytes) (s : Shared) (remote : SocketAddr) (id : Bytes)
    → phone.machine.phase ≡ ready
    → phone.commands_open ≡ true
    → IsUp link desk
    → All (IsSendable link) clips
    → All (λ clip. clip.mime ≡ mime_text_plain) clips
    → (drive link phone (sends link clips n c)).status ≡ running
    → link.quic.sent phone.send ++ link.quic.incoming desk.recv
      ≡ link.quic.sent (drive link phone (sends link clips n c)).send ++ left
    → IsListening s remote id
    → let events = (drive link desk (reads link clips n' c')).events in
      let after = handle_all s remote (drop (length desk.events) events) now in
      let new = written s.last_hash clips in
      (after.applied ≡ s.applied ++ to_clipboard new)
      × (after.sent ≡ s.sent ++ relayed (others id s.connected_devices) new)
      × ((h : SessionHandle)
          → IsIn h (others id s.connected_devices) ↔ IsOther id s.connected_devices h)
drive-handle_all link phone desk clips n n' c c' now left s remote id is_ready is_open up fits plain
      runs arrives listens =
    let carried =
      drive-carries link phone desk clips n n' c c' left is_ready is_open up fits runs arrives in
    let heard =
      ap (drop (length desk.events)) carried.0
      ∙ drop-append_length (length desk.events) desk.events (map clipboard_received clips) refl in
    let (applied, sent) =
      subst
        (λ events.
          let after = handle_all s remote events now in
          (after.applied ≡ s.applied ++ to_clipboard (written s.last_hash clips))
          × (after.sent
              ≡ s.sent ++ relayed (others id s.connected_devices) (written s.last_hash clips)))
        (sym heard) (handle_all-delivers s remote id clips now listens plain) in
    (applied, sent, others_iff id s.connected_devices)
