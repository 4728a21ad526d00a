-- ===== src/Cli/Tui/Drawing.antt =====
-- crates/cli/src/tui.rs: what is drawn. The widgets are `ratatui`'s; a line is its pieces of text with
-- their colours, and the splitting of the frame into three rows is an argument.
pub mod Hints
use penguinsync.Base.{
  ℕ, suc, ◌+◌, ◌%◌, ◌^◌, ◌==◌, Str, str, Bool, true, false, List, [], ◌∷◌, ◌++◌, Option, none, some,
  if◌then◌else◌, length, min, leb, map,
}
use penguinsync.Base.Text.{str_get, ◌>>=◌}
use penguinsync.Base.Decimal.{u16_to_string, usize_to_string}
use penguinsync.Base.Time.{Instant}
use penguinsync.Cli.Tui.{
  App, Status, StatusKind, hint_kind, ok_kind, err_kind, DeviceInfo, PendingConfirmation,
  PairingDisplay, remaining_secs,
}
use penguinsync.Cli.Tui.Layout.{Rect, confirmation_popup, draw_pairing, pairing_footer_rows}

pub data Colour : Type 0 where
  plain accent muted ok_colour err_colour warn : Colour

pub record Span : Type 0 where
  pub text : Str
  colour : Colour
  bold : Bool

abbrev pub Line : Type 0
Line = List Span

abbrev raw : Str → Span
raw text = record { text = text; colour = plain; bold = false }

abbrev styled : Str → Colour → Span
styled text colour = record { text = text; colour = colour; bold = false }

abbrev strong : Str → Colour → Span
strong text colour = record { text = text; colour = colour; bold = true }

unfoldable count_connected : List DeviceInfo → ℕ
count_connected [] = 0
count_connected (d ∷ rest) =
    if d.connected then suc (count_connected rest) else count_connected rest

-- The middle dot between two spaces is U+00B7.
unfoldable summary : (total live : ℕ) → Str
summary total live =
    if total == 0
    then str "no devices"
    else if live == 0
    then usize_to_string total ++ str " paired " ++ 0xC2 ∷ 0xB7 ∷ str " none connected"
    else usize_to_string total
      ++ str " paired "
      ++ 0xC2 ∷ 0xB7 ∷ str " "
      ++ usize_to_string live
      ++ str " connected"

unfoldable draw_header : App → Line
unfolding count_connected summary
draw_header app =
    strong (str " PenguinSync") accent
    ∷ raw (str "  ")
    ∷ styled (summary (length app.devices) (count_connected app.devices)) muted
    ∷ []

-- A row; `none` where the slice of the id panics.
unfoldable pub device_row : DeviceInfo → Option Line
device_row d = do
  prefix ← str_get d.device_id 0 (min 16 (length d.device_id))
  let colour : Colour = if d.connected then ok_colour else muted
  some (
      styled (if d.connected then 0xE2 ∷ 0x97 ∷ 0x8F ∷ [] else 0xE2 ∷ 0x97 ∷ 0x8B ∷ []) colour
      ∷ raw (str " " ++ d.name ++ str "  ")
      ∷ styled prefix muted
      ∷ raw (str "  ")
      ∷ styled (if d.connected then str "connected" else str "offline") colour
      ∷ [])

unfoldable pub device_rows : List DeviceInfo → Option (List Line)
unfolding device_row
device_rows [] = some []
device_rows (d ∷ rest) = do row ← device_row d; rows ← device_rows rest; some (row ∷ rows)

-- The lines inside the block, and the row that is marked.
unfoldable pub draw_devices : App → Option (List Line × Option ℕ)
unfolding device_rows
draw_devices app = elim app.devices [
  | [] ↦ some (
    (raw [] ∷ [])
        ∷ (styled (str "No paired devices yet.") muted ∷ [])
        ∷ (styled (str "Press ") muted
            ∷ strong (str "p") accent
            ∷ styled (str " to show a pairing code.") muted
            ∷ [])
        ∷ [],
    none,
  )
  | d ∷ rest ↦ do rows ← device_rows (d ∷ rest); some (rows, some app.selected)
]

unfoldable pub keys : App → List (Str × Str)
keys app = elim app.confirmation [
  | some c ↦ (str "y", str "confirm") ∷ (str "n", str "reject") ∷ []
  | none ↦ elim app.pairing_display [
    | some p ↦ (str "Esc", str "dismiss") ∷ []
    | none ↦
        (str "p", str "pair")
        ∷ (str "u", str "unpair")
        ∷ (0xE2 ∷ 0x86 ∷ 0x91 ∷ b'/' ∷ 0xE2 ∷ 0x86 ∷ 0x93 ∷ [], str "select")
        ∷ (str "q", str "quit")
        ∷ []
  ]
]

key_spans : List (Str × Str) → Line
key_spans [] = []
key_spans ((key, label) ∷ rest) =
    strong key accent ∷ styled (str " " ++ label ++ str "   ") muted ∷ key_spans rest

kind_colour : StatusKind → Colour
kind_colour ok_kind = ok_colour
kind_colour err_kind = err_colour
kind_colour hint_kind = muted

unfoldable draw_footer : App → Line
unfolding key_spans kind_colour keys
draw_footer app = elim app.status.set_at [
  | some at ↦ styled (str " " ++ app.status.text) (kind_colour app.status.kind) ∷ []
  | none ↦ raw (str " ") ∷ key_spans (keys app)
]

-- The rows below the code.
unfoldable pairing_rows : PairingDisplay → Instant → List Line
pairing_rows pairing now =
    let left = remaining_secs pairing.issued_at now in
    (styled (str "Fingerprint  ") muted ∷ strong pairing.fingerprint plain ∷ [])
    ∷ (styled (str "Refreshes in " ++ usize_to_string left ++ str "s")
          (if leb left 10 then warn else muted)
        ∷ [])
    ∷ (raw [] ∷ [])
    ∷ (strong (str "Esc") accent ∷ styled (str " dismiss") muted ∷ [])
    ∷ []

-- The text in place of a code that does not fit.
unfoldable too_small : Rect → PairingDisplay → List Str
too_small area pairing =
    (str "This terminal is "
      ++ u16_to_string area.width
      ++ str "x"
      ++ u16_to_string area.height
      ++ str ", too small to show the pairing QR uncut (it needs "
      ++ u16_to_string pairing.qr.width
      ++ str "x"
      ++ u16_to_string ((pairing.qr.height + pairing_footer_rows) % 2 ^ 16)
      ++ str "). A clipped QR cannot be scanned, so it isn't drawn.")
    ∷ []
    ∷ (str "Resize the window and press 'p' again "
        ++ 0xE2 ∷ 0x80 ∷ 0x94 ∷ str " or type this into the phone's Pair screen by hand:")
    ∷ []
    ∷ pairing.uri
    ∷ []
    ∷ (str "Fingerprint: " ++ pairing.fingerprint)
    ∷ []
    ∷ str "[Esc] dismiss"
    ∷ []

unfoldable confirmation_lines : PendingConfirmation → List Line
confirmation_lines c =
    (raw [] ∷ [])
    ∷ (styled (str "Device       ") muted ∷ strong c.name plain ∷ [])
    ∷ (styled (str "Fingerprint  ") muted ∷ strong c.fingerprint plain ∷ [])
    ∷ (raw [] ∷ [])
    ∷ (styled (str "Does this match what the phone is showing?") muted ∷ [])
    ∷ (raw [] ∷ [])
    ∷ (strong (str "y") ok_colour
        ∷ styled (str " confirm    ") muted
        ∷ strong (str "n") err_colour
        ∷ styled (str " reject") muted
        ∷ [])
    ∷ []

-- What lies over the devices.
pub data Overlay : Type 0 where
  nothing : Overlay
  asks : (popup : Rect) → List Line → Overlay
  code : (area : Rect) → List Str → (rows : Rect) → List Line → Overlay
  text_only : (area : Rect) → List Str → Overlay

pub record Screen : Type 0 where
  pub header : Rect × Line
  pub devices : Rect × (List Line × Option ℕ)
  footer : Rect × Line
  overlay : Overlay

unfoldable pub draw_overlay : App → Rect → Instant → Option Overlay
unfolding confirmation_lines pairing_rows too_small
draw_overlay app area now = elim app.confirmation [
  | some c ↦ do popup ← confirmation_popup area; some (asks popup (confirmation_lines c))
  | none ↦ elim app.pairing_display [
    | none ↦ some nothing
    | some pairing ↦ some (elim (draw_pairing area pairing.qr) [
      | none ↦ text_only area (too_small area pairing)
      | some (at, rows) ↦ code at pairing.qr.text rows (pairing_rows pairing now)
    ])
  ]
]

-- `none` for a panic.
unfoldable pub draw : (Rect → Rect × Rect × Rect) → App → Rect → Instant → Option Screen
unfolding draw_header draw_devices draw_footer draw_overlay
draw split app area now = do
  let chunks = split area
  devices ← draw_devices app
  overlay ← draw_overlay app area now
  some (record {
    header = (chunks.0, draw_header app);
    devices = (chunks.1, devices);
    footer = (chunks.2, draw_footer app);
    overlay = overlay;
  })
