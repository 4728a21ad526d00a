-- ===== src/Tests/Delivery.antt =====
-- Clips from one machine's clipboard to the other's, over streams of bytes.
use penguinsync.Base.{
  ◌↔◌, ◌≡◌, refl, Bytes, str, true, [], ◌∷◌, ◌++◌, none, arith, length, bytes_discrete,
}
use penguinsync.Base.Map.{lookup}
use penguinsync.Base.Result.{Result, ok, err}
use penguinsync.Base.Addr.{addr_key}
use penguinsync.Base.Utf8.{is_utf8}
use penguinsync.Protocol.Clip
use penguinsync.Protocol.Clip.{mime_text_plain, IsValid}
use penguinsync.Protocol.Message.{Message, clipboard, encode}
use penguinsync.Protocol.Connection.{ready, handle, on_send_clipboard}
use penguinsync.Net.Tls.{is_paired}
use penguinsync.Net.Framing.{to_le_bytes, write_message, write_frame}
use penguinsync.Net.Session.{
  Link, Drive, running, feed, run_actions, after_write, round, on_command, drive,
}
use penguinsync.Net.Session.Carrying.{reads}
use penguinsync.Daemon.Shared.{Shared, SessionHandle}
use penguinsync.Daemon.Clipboard.{others, watch_round, broadcast, send_all, values}
use penguinsync.Daemon.Clipboard.Watching.{watch_all}
use penguinsync.Ffi.Core.{Forward, forward_events, clipboard_text}
use penguinsync.Ffi.Core.Hearing.{from_session, forward_events-watch_all}
use penguinsync.Daemon.Delivery.{
  handle_all, written, relayed, drive-handle_all, IsListening, IsIn, IsOther,
}
use penguinsync.Tests.Crates.{packed, unpack, unpack-packed, bytes_quic}
use penguinsync.Tests.Protocol.{a_clip, a_fresh, phone_id, desk_id}
use penguinsync.Tests.Apps.{fresh_core}
use penguinsync.Tests.Daemon.{paired_daemon, home}

-- A codec of clips only.
unfoldable to_vec : Message → Result (Unit {0}) Bytes
to_vec (clipboard c) = ok (packed c.mime (packed c.content c.hash))
to_vec _ = err tt

unfoldable from_vec : Bytes → Result (Unit {0}) Message
from_vec bs =
    let (mime, rest) = unpack bs in
    let (content, hash) = unpack rest in
    ok (clipboard (record { mime = mime; content = content; hash = hash }))

from_vec-to_vec : (m : Message) (bs : Bytes) → to_vec m ≡ ok bs → from_vec bs ≡ ok m
unfolding to_vec from_vec
from_vec-to_vec (clipboard c) bs h =
    ground (arith, unpack-packed c.mime (packed c.content c.hash), unpack-packed c.content c.hash)
from_vec-to_vec m bs h = ground arith

abbrev clips_link : Link
clips_link = record {
  postcard = record {
    Error = Unit;
    to_allocvec = to_vec;
    from_bytes = from_vec;
    from_bytes-to_allocvec = from_vec-to_vec;
  };
  quic = bytes_quic;
  framing_text = λ e. str "framing";
  read_text = λ e. str "read";
}

abbrev clip_bytes : Bytes
clip_bytes = packed mime_text_plain (packed (str "hello") (str "hello"))

abbrev clip_frame : Bytes
clip_frame = to_le_bytes (length clip_bytes) ++ clip_bytes

abbrev up : Bytes → Drive clips_link
up incoming = record {
  machine = record a_fresh { phase = ready };
  send = [];
  recv = incoming;
  commands_open = true;
  events = [];
  close_code = none;
  status = running;
}

abbrev tablet_handle : SessionHandle
tablet_handle = record { remote = home; session = 5 }

-- Another device is connected too.
abbrev busy_daemon : Shared
busy_daemon = record paired_daemon {
  connected_devices =
      (phone_id, record { remote = home; session = 1 }) ∷ (str "tablet", tablet_handle) ∷ [];
}

busy_daemon-IsListening : IsListening busy_daemon home phone_id
unfolding lookup is_paired bytes_discrete
busy_daemon-IsListening = record { known = ground arith; paired = refl; backend = refl }

-- The second clip repeats the first.
drive-handle_all_example :
    let events =
      (drive clips_link
        (up (clip_frame ++ clip_frame))
        (reads clips_link (a_clip ∷ a_clip ∷ []) 2 6)).events in
    let after = handle_all busy_daemon home events 8 in
    (after.applied ≡ (mime_text_plain, str "hello") ∷ [])
    × (after.sent ≡ (tablet_handle, a_clip) ∷ [])
    × ((h : SessionHandle)
        → IsIn h (tablet_handle ∷ []) ↔ IsOther phone_id busy_daemon.connected_devices h)
unfolding drive round on_command feed handle on_send_clipboard run_actions after_write encode
    write_message write_frame to_vec to_le_bytes bytes_discrete written relayed others
drive-handle_all_example =
    drive-handle_all clips_link (up []) (up (clip_frame ++ clip_frame)) (a_clip ∷ a_clip ∷ []) 1 2 5
      6 8 [] busy_daemon home phone_id refl refl (refl, refl)
      ((clip_bytes, refl, omega arith), ((clip_bytes, refl, omega arith), tt)) (refl, (refl, tt))
      refl refl busy_daemon-IsListening

a_clip-IsValid : IsValid (λ bs. bs) a_clip
a_clip-IsValid = record { plain = refl; small = omega arith; hashed = refl }

abbrev a_forward : Forward
a_forward = record { core = fresh_core; persisted = true; heard = [] }

-- The clipboard is set to the same text twice.
forward_events-watch_all_example :
    let heard = (drive clips_link (up clip_frame) (reads clips_link (a_clip ∷ []) 2 6)).events in
    (forward_events desk_id (str "desk") a_forward (from_session heard)).heard
    ≡ clipboard_text (str "hello") ∷ []
unfolding drive round on_command feed handle on_send_clipboard run_actions after_write encode
    write_message write_frame to_vec to_le_bytes bytes_discrete written relayed watch_all is_utf8
    watch_round Clip.new broadcast send_all values
forward_events-watch_all_example =
    forward_events-watch_all clips_link (λ bs. bs) paired_daemon (a_clip ∷ a_clip ∷ [])
      (a_clip ∷ []) phone_id (record { remote = home; session = 1 }) (up []) (up clip_frame) 1 2 5 6
      [] desk_id (str "desk") a_forward (a_clip-IsValid, (a_clip-IsValid, tt))
      ((clip_bytes, refl, omega arith), ((clip_bytes, refl, omega arith), tt)) (refl, (refl, tt))
      refl refl refl refl (refl, refl) refl refl
