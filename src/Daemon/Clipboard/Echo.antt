-- ===== src/Daemon/Clipboard/Echo.antt =====
-- A clip that has been seen is not sent again.
use penguinsync.Base.{
  ◌≡◌, refl, Bytes, Str, true, List, [], ◌∷◌, Option, none, some, arith, bytes_key, ◌∙◌, All, ap,
}
use penguinsync.Protocol.Clip.{Clip, mime_text_plain, IsValid, new_iff}
use penguinsync.Protocol.Clip
use penguinsync.Net.Tls.{is_paired}
use penguinsync.Daemon.Shared.{Shared}
use penguinsync.Daemon.Clipboard.{
  should_broadcast, send_all, apply_locally, apply_and_relay, handle_received, watch_round,
  broadcast,
}

-- A clip comes from a peer, or is found on the desktop's clipboard.
pub data Sighting : Type 0 where
  from_peer : Bytes → Clip → Sighting
  local : (mime : Str) (read : Option Bytes) → Sighting

handled :
    (s : Shared) (sender : Bytes) (clip : Clip)
    → is_paired s.trust sender ≡ true
    → clip.mime ≡ mime_text_plain
    → (handle_received s sender clip).last_hash ≡ some clip.hash
unfolding handle_received apply_and_relay should_broadcast apply_locally send_all
handled s sender clip p plain = ground arith

module _ (blake3 : Bytes → Bytes) where
  unfoldable pub see : Shared → Sighting → Shared
  see s (from_peer sender clip) = handle_received s sender clip
  see s (local mime read) = watch_round blake3 s mime read

  unfoldable pub see_all : Shared → List Sighting → Shared
  see_all s [] = s
  see_all s (x ∷ rest) = see_all (see s x) rest

  -- The sighting is of this content.
  abbrev pub IsOf : Bytes → Sighting → Type 0
  IsOf content (from_peer sender clip) = IsValid blake3 clip × (clip.content ≡ content)
  IsOf content (local mime none) = Unit
  IsOf content (local mime (some bytes)) = bytes ≡ content

  see-seen :
      (s : Shared) (content : Bytes) (x : Sighting)
      → s.last_hash ≡ some (blake3 content)
      → IsOf content x
      → see s x ≡ s
  unfolding see handle_received apply_and_relay should_broadcast watch_round broadcast Clip.new
  see-seen s content (from_peer sender clip) h (v, e) =
      let seen : clip.hash ≡ blake3 content = cc (v.hashed, e) in ground (arith, seen)
  see-seen s content (local mime none) h v = ground arith
  see-seen s content (local mime (some bytes)) h v = ground arith

  see_all-seen :
      (s : Shared) (content : Bytes) (xs : List Sighting)
      → s.last_hash ≡ some (blake3 content)
      → All (IsOf content) xs
      → see_all s xs ≡ s
  unfolding see_all
  see_all-seen s content [] h v = refl
  see_all-seen s content (x ∷ rest) h v =
      rw (see-seen s content x h v.0) (see_all-seen s content rest h v.1)

  -- A paired peer's clip is plain text within the size cap, with the hash of its content; the daemon
  -- does not check that hash. Once the clip has been handled, further such clips of its content, from
  -- any peer, and reads of it from the desktop's clipboard, in any number and order, change nothing:
  -- none is sent or written again.
  pub handle_received-no_echo :
      (s : Shared) (sender : Bytes) (clip : Clip) (xs : List Sighting)
      → is_paired s.trust sender ≡ true
      → IsValid blake3 clip
      → All (IsOf clip.content) xs
      → see_all (handle_received s sender clip) xs ≡ handle_received s sender clip
  handle_received-no_echo s sender clip xs p v copies =
      see_all-seen (handle_received s sender clip) clip.content xs
        (handled s sender clip p v.plain ∙ ap some v.hashed) copies
