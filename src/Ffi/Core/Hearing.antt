-- ===== src/Ffi/Core/Hearing.antt =====
-- From the desktop's clipboard to the app: crates/daemon/src/clipboard.rs, crates/net/src/session.rs on
-- both sides, then crates/ffi/src/core.rs.
use penguinsync.Base.{
  ℕ, ◌≡◌, refl, Bytes, Str, true, List, [], ◌∷◌, ◌++◌, Option, none, some, arith, length, drop, ap,
  sym, ◌∙◌, All, map, bytes_key, drop-append_length, subst,
}
use mathlib.Core.List.{append_assoc, append-nil}
use penguinsync.Base.Utf8.{is_utf8}
use penguinsync.Base.Time.{Instant}
use penguinsync.Protocol.Clip.{Clip, IsValid}
use penguinsync.Protocol.Connection.{ready}
use penguinsync.Net.Session.{Link, Drive, SessionEvent, drive, running, clipboard_received}
use penguinsync.Net.Session.Carrying.{IsUp, IsSendable, sends, reads, drive-carries}
use penguinsync.Net.Dialer.{DialerEvent, session}
use penguinsync.Daemon.Shared.{Shared, SessionHandle}
use penguinsync.Daemon.Clipboard.{values}
use penguinsync.Daemon.Clipboard.Watching.{watch_all, watch_all-sent}
use penguinsync.Daemon.Delivery.{written, relayed}
use penguinsync.Ffi.Core.{
  Forward, CoreEvent, clipboard_text, forward_event, forward_events, set_active, save_peer,
  to_core_event,
}

written-All :
    (P : Clip → Type 0) (last : Option Bytes) (clips : List Clip)
    → All P clips
    → All P (written last clips)
unfolding written
written-All P last [] h = tt
written-All P none (clip ∷ rest) (p, h) = (p, written-All P (some clip.hash) rest h)
written-All P (some last) (clip ∷ rest) (p, h) =
    let new = written-All P (some clip.hash) rest h in
    let old = written-All P (some last) rest h in ground (arith, new, old, p)

relayed-one :
    (h : SessionHandle) (clips : List Clip)
    → map (λ (e : SessionHandle × Clip). e.1) (relayed (h ∷ []) clips) ≡ clips
unfolding relayed
relayed-one h [] = refl
relayed-one h (clip ∷ rest) = ap (λ (x : List Clip). clip ∷ x) (relayed-one h rest)

abbrev pub from_session : List SessionEvent → List DialerEvent
from_session events = map session events

forward_events-texts :
    (device_id : Bytes) (name : Str) (f : Forward) (clips : List Clip)
    → All (λ clip. is_utf8 clip.content ≡ true) clips
    → (forward_events device_id name f (from_session (map clipboard_received clips))).heard
      ≡ f.heard ++ map (λ clip. clipboard_text clip.content) clips
unfolding forward_events forward_event set_active save_peer to_core_event
forward_events-texts device_id name f [] h = sym (append-nil f.heard)
forward_events-texts device_id name f (clip ∷ rest) (u, h) =
    let f' = forward_event device_id name f (session (clipboard_received clip)) in
    let one : f'.heard ≡ f.heard ++ clipboard_text clip.content ∷ [] = ground arith in
    let texts = map (λ (c : Clip). clipboard_text c.content) rest in
    forward_events-texts device_id name f' rest h
    ∙ ap (λ (x : List CoreEvent). x ++ texts) one
    ∙ append_assoc f.heard (clipboard_text clip.content ∷ []) texts

-- What the changes queue for the only connected device.
queued-written :
    (blake3 : Bytes → Bytes) (s : Shared) (clips : List Clip) (id : Bytes) (h : SessionHandle)
    → All (IsValid blake3) clips
    → s.connected_devices ≡ (id, h) ∷ []
    → map (λ e. e.1) (drop (length s.sent) (watch_all blake3 s clips).sent)
      ≡ written s.last_hash clips
unfolding values
queued-written blake3 s clips id h valid only =
    let new = written s.last_hash clips in
    let sent =
      watch_all-sent blake3 s clips valid ∙ ap (λ c. s.sent ++ relayed (values c) new) only in
    ap (λ q. map (λ (e : SessionHandle × Clip). e.1) (drop (length s.sent) q)) sent
    ∙ ap (map (λ (e : SessionHandle × Clip). e.1))
        (drop-append_length (length s.sent) s.sent (relayed (h ∷ []) new) refl)
    ∙ relayed-one h new

-- One phone is connected, and the desktop's clipboard becomes clips of plain text within the size cap
-- one after the other. What the daemon queues for the phone are the commands of its session, which is
-- behind its handshake, still takes commands and goes on; each clip is within the frame limit, and the
-- bytes reach the phone's session, which is behind its handshake, has not ended and makes as many
-- reads. If all clips are UTF-8, then the app's listener hears the texts of these clips in their order,
-- each once: only one that repeats the content just before it is left out.
pub forward_events-watch_all :
    (link : Link) (blake3 : Bytes → Bytes) (s : Shared) (clips queued : List Clip) (id : Bytes)
    (handle : SessionHandle) (desk phone : Drive link) (n n' : ℕ) (c c' : Instant) (left : Bytes)
    (device_id : Bytes) (name : Str) (f : Forward)
    → All (IsValid blake3) clips
    → All (IsSendable link) clips
    → All (λ clip. is_utf8 clip.content ≡ true) clips
    → s.connected_devices ≡ (id, handle) ∷ []
    → map (λ e. e.1) (drop (length s.sent) (watch_all blake3 s clips).sent) ≡ queued
    → desk.machine.phase ≡ ready
    → desk.commands_open ≡ true
    → IsUp link phone
    → (drive link desk (sends link queued n c)).status ≡ running
    → link.quic.sent desk.send ++ link.quic.incoming phone.recv
      ≡ link.quic.sent (drive link desk (sends link queued n c)).send ++ left
    → let heard = drop (length phone.events) (drive link phone (reads link queued n' c')).events in
      (forward_events device_id name f (from_session heard)).heard
      ≡ f.heard ++ map (λ clip. clipboard_text clip.content) (written s.last_hash clips)
forward_events-watch_all link blake3 s clips queued id handle desk phone n n' c c' left device_id
      name f valid fits texts only queue is_ready is_open up runs arrives =
    let new = written s.last_hash clips in
    let same : new ≡ queued = sym (queued-written blake3 s clips id handle valid only) ∙ queue in
    let fits' : All (IsSendable link) queued =
      subst (All (IsSendable link)) same (written-All (IsSendable link) s.last_hash clips fits) in
    let texts' : All (λ clip. is_utf8 clip.content ≡ true) queued =
      subst (All (λ clip. is_utf8 clip.content ≡ true)) same
        (written-All (λ clip. is_utf8 clip.content ≡ true) s.last_hash clips texts) in
    let carried =
      drive-carries link desk phone queued n n' c c' left is_ready is_open up fits' runs arrives in
    let heard =
      ap (drop (length phone.events)) carried.0
      ∙ drop-append_length (length phone.events) phone.events (map clipboard_received queued)
          refl in
    ap (λ events. (forward_events device_id name f (from_session events)).heard) heard
    ∙ forward_events-texts device_id name f queued texts'
    ∙ ap (λ (x : List Clip). f.heard ++ map (λ clip. clipboard_text clip.content) x) (sym same)
