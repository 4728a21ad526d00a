-- ===== src/Daemon/Clipboard/Extension.antt =====
-- gnome-extension/extension.js: the clipboard's extension of the GNOME desktop, as far as the daemon
-- calls it. GNOME Shell's selection and JavaScript's decoder of texts are parameters. A text is its UTF-8
-- bytes, which `TextEncoder` gives.
use penguinsync.Base.{◌≡◌, Bytes, Str, true, ◌∷◌, ap}
use penguinsync.Base.Utf8.{is_utf8}
use penguinsync.Base.Result.{Result, ok, err}
use penguinsync.Protocol.Clip.{mime_text_plain}

-- A text with a byte order mark, which the decoder takes off.
abbrev pub HasMark : Bytes → Type 0
HasMark text = (rest : Bytes) × (text ≡ 239 ∷ 187 ∷ 191 ∷ rest)

-- `transfer` is `transfer_async` with `transfer_finish` on the clipboard's selection; `set_owner` makes
-- a source in memory its owner; `decode` is `TextDecoder.decode`.
pub record Shell : Type 1 where
  pub State : Type 0
  pub transfer : Str → State → Result Str Bytes
  pub set_owner : Str → Bytes → State → Result Str State
  pub decode : Bytes → Str
  pub transfer-set_owner :
      (mime : Str) (bytes : Bytes) (x x' : State)
      → set_owner mime bytes x ≡ ok x'
      → transfer mime x' ≡ ok bytes
  pub decode-is_utf8 :
      (bytes : Bytes) → is_utf8 bytes ≡ true → ¬ HasMark bytes → decode bytes ≡ bytes

module _ (shell : Shell) where
  open shell use {State, transfer, set_owner, decode}

  unfoldable pub read_selection : Str → State → Result Str Bytes
  read_selection mime x = transfer mime x

  unfoldable pub write_selection : Str → Bytes → State → Result Str State
  write_selection mime bytes x = set_owner mime bytes x

  unfoldable pub get_text : State → Result Str Str
  unfolding read_selection
  get_text x = elim (read_selection mime_text_plain x) [
    | ok bytes ↦ ok (decode bytes)
    | err e ↦ err e
  ]

  unfoldable pub set_text : Str → State → Result Str State
  unfolding write_selection
  set_text text x = write_selection mime_text_plain text x

  -- A text that was set is given back, unless it begins with a byte order mark.
  pub get_text-set_text :
      (text : Str) (x x' : State)
      → is_utf8 text ≡ true
      → ¬ HasMark text
      → set_text text x ≡ ok x'
      → get_text x' ≡ ok text
  unfolding get_text set_text
  get_text-set_text text x x' valid plain done =
      rw (shell.transfer-set_owner mime_text_plain text x x' done, get_text)
        (ap ok (shell.decode-is_utf8 text valid plain))
