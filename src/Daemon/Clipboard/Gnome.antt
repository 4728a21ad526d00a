-- ===== src/Daemon/Clipboard/Gnome.antt =====
-- crates/daemon/src/clipboard.rs: the backend that asks the extension of the GNOME desktop, and the loop
-- that runs on any backend.
use penguinsync.Base.{
  Bytes, Str, Bool, true, false, List, [], ◌∷◌, Option, none, some, ite, ◌=?◌, bytes_key,
  if◌then◌else◌,
}
use penguinsync.Base.Utf8.{is_utf8}
use penguinsync.Base.Result.{Result, ok, err, map_err}
use penguinsync.Protocol.Clip.{mime_text_plain}
use penguinsync.Net.Clipboard.{ClipboardError, not_available, other, ClipChanged, ClipboardBackend}
use penguinsync.Daemon.Shared.{Shared}
use penguinsync.Daemon.Clipboard.{watch_round}
use penguinsync.Daemon.Clipboard.Extension.{Shell, get_text, set_text}

-- Whether the backend is used, from what the bus gives: its own proxy, whether the extension's name
-- has an owner, and the extension's proxy.
unfoldable pub probe : Option (Unit {0}) → Option Bool → Option (Unit {0}) → Option (Unit {0})
probe none has_owner proxy = none
probe (some _) none proxy = none
probe (some _) (some false) proxy = none
probe (some _) (some true) proxy = proxy

module _ (shell : Shell) where
  open shell use {State}

  -- For each signal, whether the stream's receiver is there, and the state in which it is handled.
  unfoldable pub forwarded : List (Bool × State) → List (ClipChanged × State)
  forwarded [] = []
  forwarded ((false, x) ∷ rest) = []
  forwarded ((true, x) ∷ rest) = (record { mime = mime_text_plain }, x) ∷ forwarded rest

  -- Without a subscription there are no notifications.
  unfoldable pub watch : Option (List (Bool × State)) → List (ClipChanged × State)
  watch none = []
  watch (some signals) = forwarded signals

  unfoldable pub read : Str → State → Result ClipboardError Bytes
  read mime x = ite (mime =? mime_text_plain) (map_err other (get_text shell x)) (err not_available)

  -- The argument is the text of the error for bytes that are not UTF-8.
  unfoldable pub write : Str → Str → Bytes → State → Result ClipboardError State
  write invalid mime bytes x =
      ite (mime =? mime_text_plain)
        (if is_utf8 bytes then map_err other (set_text shell bytes x) else err (other invalid))
        (err not_available)

  unfoldable pub backend : Str → Option (List (Bool × State)) → ClipboardBackend State
  backend invalid signals = record { watch = watch signals; read = read; write = write invalid }

abbrev pub read_bytes : Result ClipboardError Bytes → Option Bytes
read_bytes (ok bytes) = some bytes
read_bytes (err e) = none

module _ (blake3 : Bytes → Bytes) {S : Type 0} (b : ClipboardBackend S) where
  unfoldable pub rounds : List (ClipChanged × S) → Shared → Shared
  rounds [] s = s
  rounds ((change, x) ∷ rest) s =
      rounds rest (watch_round blake3 s change.mime (read_bytes (b.read change.mime x)))

  unfoldable pub watch_and_broadcast : Shared → Shared
  unfolding rounds
  watch_and_broadcast s = rounds b.watch s
