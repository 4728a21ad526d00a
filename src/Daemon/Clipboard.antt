-- ===== src/Daemon/Clipboard.antt =====
-- crates/daemon/src/clipboard.rs: both directions of the clipboard.
pub mod Watching
pub mod Echo
pub mod Extension
pub mod Gnome
pub mod Written
use penguinsync.Base.{
  ℕ, Bytes, Str, Bool, true, false, List, [], ◌∷◌, ◌++◌, Option, none, some, ite, ◌=?◌, bytes_key,
  map, if◌then◌else◌, not,
}
use penguinsync.Base.Map.{Map}
use penguinsync.Base.Result.{Result, ok, err}
use penguinsync.Protocol.Clip.{Clip, mime_text_plain}
use penguinsync.Protocol.Clip
use penguinsync.Net.Tls.{is_paired}
use penguinsync.Daemon.Shared.{Shared, SessionHandle}

-- The new value of `last_hash`, and the result.
unfoldable pub should_broadcast : Option Bytes → Bytes → Option Bytes × Bool
should_broadcast none hash = (some hash, true)
should_broadcast (some last) hash = ite (last =? hash) (some last, false) (some hash, true)

-- Queues the clip on each of the handles.
unfoldable pub send_all : List SessionHandle → Clip → Shared → Shared
send_all handles clip s = record s { sent = s.sent ++ map (λ h. (h, clip)) handles }

unfoldable pub values : Map Bytes SessionHandle → List SessionHandle
values = map (λ e. e.1)

unfoldable pub others : Bytes → Map Bytes SessionHandle → List SessionHandle
others sender [] = []
others sender ((id, handle) ∷ rest) =
    ite (id =? sender) (others sender rest) (handle ∷ others sender rest)

unfoldable pub broadcast : Shared → Clip → Shared
unfolding should_broadcast
broadcast s clip =
    let (last, is_new) = should_broadcast s.last_hash clip.hash in
    if is_new
    then send_all (values s.connected_devices) clip (record s { last_hash = last })
    else record s { last_hash = last }

-- One round of the loop of `watch_and_broadcast`: a change notification of type `mime`, and what the
-- backend's `read` returns for it.
unfoldable pub watch_round : (Bytes → Bytes) → Shared → Str → Option Bytes → Shared
watch_round blake3 s mime read =
    ite (mime =? mime_text_plain)
      (elim read [
        | none ↦ s
        | some bytes ↦ elim (Clip.new blake3 mime bytes) [ err e ↦ s | ok clip ↦ broadcast s clip ]
      ])
      s

-- The call of `backend.write`, whose result is only logged: nothing depends on whether it fails.
unfoldable pub apply_locally : Shared → Clip → Shared
apply_locally s clip =
    if s.has_backend then record s { applied = s.applied ++ (clip.mime, clip.content) ∷ [] } else s

unfoldable pub apply_and_relay : Shared → Bytes → Clip → Shared
unfolding should_broadcast apply_locally send_all
apply_and_relay s sender clip =
    let (last, is_new) = should_broadcast s.last_hash clip.hash in
    let s' = record s { last_hash = last } in
    if is_new then send_all (others sender s.connected_devices) clip (apply_locally s' clip) else s'

unfoldable pub handle_received : Shared → Bytes → Clip → Shared
handle_received s sender clip =
    if is_paired s.trust sender
    then ite (clip.mime =? mime_text_plain) (apply_and_relay s sender clip) s
    else s
