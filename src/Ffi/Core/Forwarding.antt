-- ===== src/Ffi/Core/Forwarding.antt =====
-- What the app's core knows of its connection from the dialer's events.
use penguinsync.Base.{
  ℕ, ◌≤◌, ◌≡◌, ◌↔◌, refl, Bytes, Str, Bool, true, false, ◌||◌, not, List, [], ◌∷◌, Option, none,
  some, arith, length, if◌then◌else◌,
}
use penguinsync.Base.Result.{ok}
use penguinsync.Protocol.Clip.{max_content_len}
use penguinsync.Protocol.Clip
use penguinsync.Net.Session.{closed}
use penguinsync.Net.Dialer.{DialerEvent, connected, session}
use penguinsync.Ffi.State.{upsert}
use penguinsync.Ffi.Core.{
  Forward, forward_event, forward_events, set_active, save_peer, is_handshake, send_clipboard,
}

-- The session of the last connection, unless an end of a session came after it; `before` if neither
-- came.
unfoldable current : Option ℕ → List DialerEvent → Option ℕ
current before [] = before
current before (connected handle ∷ rest) = current (some handle) rest
current before (session (closed _) ∷ rest) = current none rest
current before (_ ∷ rest) = current before rest

unfoldable pub any_handshake : List DialerEvent → Bool
any_handshake [] = false
any_handshake (e ∷ rest) = is_handshake e || any_handshake rest

forward_events-active :
    (id : Bytes) (name : Str) (f : Forward) (events : List DialerEvent)
    → (forward_events id name f events).core.active_session ≡ current f.core.active_session events
unfolding forward_events forward_event current set_active save_peer
forward_events-active id name f [] = refl
forward_events-active id name f (e ∷ rest) =
    ground (arith, forward_events-active id name (forward_event id name f e) rest)

-- Whatever the events: a clipboard text can be sent afterwards exactly when it is within the cap and
-- the last connection has not ended.
send_clipboard_iff :
    (blake3 : Bytes → Bytes) (id : Bytes) (name : Str) (f : Forward) (events : List DialerEvent)
    (text : Str)
    → ((send_clipboard blake3 (forward_events id name f events).core text).1 ≡ ok tt) ↔ (
        (length text ≤ max_content_len)
        × ((handle : ℕ) × (current f.core.active_session events ≡ some handle)))
unfolding send_clipboard Clip.new
send_clipboard_iff blake3 id name f events text =
    let active = forward_events-active id name f events in (λ h. ground arith, λ h. ground arith)

-- Where the file can be written, the peer of the QR code is put into it exactly when a first
-- handshake comes, and once.
pub forward_events-peers :
    (id : Bytes) (name : Str) (f : Forward) (events : List DialerEvent)
    → f.core.peers_writable ≡ true
    → (forward_events id name f events).core.peers ≡ (
        if not f.persisted
        then (if any_handshake events then upsert f.core.peers id name else f.core.peers)
        else f.core.peers)
unfolding forward_events forward_event any_handshake set_active save_peer
forward_events-peers id name f [] h = ground arith
forward_events-peers id name f (e ∷ rest) h =
    ground (arith, forward_events-peers id name (forward_event id name f e) rest)
