-- ===== src/Daemon/Clipboard/Watching.antt =====
-- What changes of the desktop's clipboard queue for the connected devices.
use penguinsync.Base.{
  ◌≡◌, refl, Bytes, Option, some, List, [], ◌∷◌, ◌++◌, arith, ap, sym, ◌∙◌, All, map, bytes_key,
  Option-cases, inl, inr,
}
use mathlib.Core.List.{append_assoc, append-nil}
use penguinsync.Base.Result.{ok}
use penguinsync.Protocol.Clip.{Clip, new, IsValid, new_iff}
use penguinsync.Daemon.Shared.{Shared}
use penguinsync.Daemon.Clipboard.{watch_round, broadcast, send_all, values, should_broadcast}
use penguinsync.Daemon.Delivery.{written, relayed}

-- The clipboard becomes these clips one after the other, and the backend reads each.
unfoldable pub watch_all : (Bytes → Bytes) → Shared → List Clip → Shared
watch_all blake3 s [] = s
watch_all blake3 s (clip ∷ rest) =
    watch_all blake3 (watch_round blake3 s clip.mime (some clip.content)) rest

watch_valid :
    (blake3 : Bytes → Bytes) (s : Shared) (clip : Clip)
    → IsValid blake3 clip
    → watch_round blake3 s clip.mime (some clip.content) ≡ broadcast s clip
unfolding watch_round
watch_valid blake3 s clip v =
    let known : new blake3 clip.mime clip.content ≡ ok clip =
      (new_iff blake3 clip.mime clip.content clip).1 (v, refl, refl) in
    ground (arith, known, v.plain)

broadcast-written :
    (s : Shared) (clip : Clip) (rest : List Clip) (last : Option Bytes)
    → s.last_hash ≡ last
    → let s' = broadcast s clip in
      let handles = values s.connected_devices in
      (s'.connected_devices ≡ s.connected_devices)
      × (s'.sent ++ relayed handles (written s'.last_hash rest)
          ≡ s.sent ++ relayed handles (written last (clip ∷ rest)))
unfolding broadcast send_all should_broadcast written relayed
broadcast-written s clip rest last h =
    let handles = values s.connected_devices in
    let each =
      append_assoc s.sent (map (λ h. (h, clip)) handles)
        (relayed handles (written (some clip.hash) rest)) in
    elim (Option-cases last) [
      | inl e ↦ (ground arith, ground (arith, each))
      | inr (hash, e) ↦ (ground arith, ground (arith, each))
    ]

-- The clips whose hash is not that of the one just before them are queued, in order, for every device.
pub watch_all-sent :
    (blake3 : Bytes → Bytes) (s : Shared) (clips : List Clip)
    → All (IsValid blake3) clips
    → (watch_all blake3 s clips).sent
      ≡ s.sent ++ relayed (values s.connected_devices) (written s.last_hash clips)
unfolding watch_all written relayed
watch_all-sent blake3 s [] valid = sym (append-nil s.sent)
watch_all-sent blake3 s (clip ∷ rest) (v, valid) =
    let s' = broadcast s clip in
    let (same, sent) = broadcast-written s clip rest s.last_hash refl in
    ap (λ x. (watch_all blake3 x rest).sent) (watch_valid blake3 s clip v)
    ∙ watch_all-sent blake3 s' rest valid
    ∙ ap (λ c. s'.sent ++ relayed (values c) (written s'.last_hash rest)) same
    ∙ sent
