-- ===== src/Daemon/Clipboard/Written.antt =====
-- What the daemon writes to the GNOME desktop's clipboard comes back as changes of that clipboard.
use penguinsync.Base.{
  ◌≡◌, refl, Bytes, Str, Bool, true, false, List, [], ◌∷◌, Option, some, arith, bytes_key, All, ap,
  ◌∙◌, inl, inr, Bool-cases,
}
use penguinsync.Base.Result.{ok, Result-cases}
use penguinsync.Protocol.Clip.{Clip, mime_text_plain, IsValid}
use penguinsync.Net.Tls.{is_paired}
use penguinsync.Daemon.Shared.{Shared}
use penguinsync.Daemon.Clipboard.{watch_round, handle_received}
use penguinsync.Daemon.Clipboard.Echo.{Sighting, local, IsOf, see, see_all, handle_received-no_echo}
use penguinsync.Daemon.Clipboard.Extension.{Shell, HasMark, set_text, get_text-set_text}
use penguinsync.Base.Utf8.{is_utf8}
use penguinsync.Daemon.Clipboard.Gnome.{
  forwarded, watch, read, write, backend, rounds, watch_and_broadcast,
}

module _ (shell : Shell) where
  open shell use {State}

  read-write :
      (invalid mime : Str) (bytes : Bytes) (x x' : State)
      → ¬ HasMark bytes
      → write shell invalid mime bytes x ≡ ok x'
      → read shell mime_text_plain x' ≡ ok bytes
  unfolding read write
  read-write invalid mime bytes x x' h wrote = elim (Bool-cases (is_utf8 bytes)) [
    | inl valid ↦ elim (Result-cases (set_text shell bytes x)) [
      | inl (e, failed) ↦ ground arith
      | inr (y, done) ↦
          let same : y ≡ x' = ground arith in
          let back = get_text-set_text shell bytes x x' valid h (done ∙ ap ok same) in
          ground (arith, back)
    ]
    | inr bad ↦ ground arith
  ]

  -- The sightings that the signals come to.
  unfoldable sightings : Bytes → List (Bool × State) → List Sighting
  sightings content [] = []
  sightings content ((false, x) ∷ rest) = []
  sightings content ((true, x) ∷ rest) =
      local mime_text_plain (some content) ∷ sightings content rest

  sightings-IsOf :
      (blake3 : Bytes → Bytes) (content : Bytes) (signals : List (Bool × State))
      → All (IsOf blake3 content) (sightings content signals)
  unfolding sightings
  sightings-IsOf blake3 content [] = tt
  sightings-IsOf blake3 content ((false, x) ∷ rest) = tt
  sightings-IsOf blake3 content ((true, x) ∷ rest) = (refl, sightings-IsOf blake3 content rest)

  rounds-sightings :
      (blake3 : Bytes → Bytes) (invalid : Str) (content : Bytes) (x : State)
      (all : Option (List (Bool × State))) (signals : List (Bool × State)) (s : Shared)
      → read shell mime_text_plain x ≡ ok content
      → All (λ e. e.1 ≡ x) signals
      → rounds blake3 (backend shell invalid all) (forwarded shell signals) s
        ≡ see_all blake3 s (sightings content signals)
  unfolding rounds forwarded see_all see sightings backend
  rounds-sightings blake3 invalid content x all [] s got h = refl
  rounds-sightings blake3 invalid content x all ((false, y) ∷ rest) s got h = refl
  rounds-sightings blake3 invalid content x all ((true, y) ∷ rest) s got h =
      rw (h.0, got)
        (rounds-sightings blake3 invalid content x all rest
          (watch_round blake3 s mime_text_plain (some content)) got h.1)

  -- A paired peer's clip is plain text within the size cap, with the hash of its content, and its text
  -- does not begin with a byte order mark, which the extension's decoder would take off. When it has
  -- been handled and the backend's write of it to the desktop's clipboard succeeds, then however often
  -- the extension reports that the clipboard has changed while it is as that write left it, nothing
  -- is broadcast and the daemon's state stays as it is.
  pub written-no_echo :
      (blake3 : Bytes → Bytes) (s : Shared) (sender : Bytes) (clip : Clip) (invalid : Str)
      (x x' : State) (signals : List (Bool × State))
      → is_paired s.trust sender ≡ true
      → IsValid blake3 clip
      → ¬ HasMark clip.content
      → (backend shell invalid (some signals)).write clip.mime clip.content x ≡ ok x'
      → All (λ e. e.1 ≡ x') signals
      → watch_and_broadcast blake3
          (backend shell invalid (some signals))
          (handle_received s sender clip)
        ≡ handle_received s sender clip
  unfolding watch_and_broadcast backend watch
  written-no_echo blake3 s sender clip invalid x x' signals paired valid plain wrote still =
      rounds-sightings blake3 invalid clip.content x' (some signals) signals
        (handle_received s sender clip) (read-write invalid clip.mime clip.content x x' plain wrote)
        still
      ∙ handle_received-no_echo blake3 s sender clip (sightings clip.content signals) paired valid
          (sightings-IsOf blake3 clip.content signals)
