-- ===== src/Cli/Tui/Layout.antt =====
-- crates/cli/src/tui.rs: where the pairing code and the confirmation are drawn.
use penguinsync.Base.{
  ℕ, ◌+◌, ◌-◌, ◌*◌, ◌/◌, ◌%◌, ◌^◌, ◌≤◌, ◌<◌, ◌≡◌, ◌↔◌, Option, none, some, arith, ltb, ◌||◌,
  if◌then◌else◌, min, max,
}
use penguinsync.Cli.Qr.{Rendered}

-- The numbers are `u16`.
pub record Rect : Type 0 where
  pub x : ℕ
  pub y : ℕ
  pub width : ℕ
  pub height : ℕ

abbrev pub pairing_footer_rows : ℕ
pairing_footer_rows = 4

abbrev code_area : Rect → Rendered → Rect
code_area area qr = record {
  x = (area.x + (area.width - qr.width) / 2) % 2 ^ 16;
  y = area.y;
  width = qr.width;
  height = qr.height;
}

abbrev rows_area : Rect → Rendered → Rect
rows_area area qr = record {
  x = (area.x + (area.width - qr.width) / 2) % 2 ^ 16;
  y = (area.y + qr.height) % 2 ^ 16;
  width = qr.width;
  height = pairing_footer_rows;
}

-- The areas of the code and of the rows below it; `none` where the code is not drawn.
unfoldable pub draw_pairing : Rect → Rendered → Option (Rect × Rect)
draw_pairing area qr =
    let needed_height = (qr.height + pairing_footer_rows) % 2 ^ 16 in
    if ltb area.width qr.width || ltb area.height needed_height
    then none
    else some (code_area area qr, rows_area area qr)

-- `clamp`, which panics where its bounds are the wrong way round.
unfoldable clamp : ℕ → ℕ → ℕ → Option ℕ
clamp n low high = if ltb high low then none else some (min (max n low) high)

abbrev centred : Rect → ℕ → ℕ → Rect
centred area width height = record {
  x = (area.width - width) / 2;
  y = (area.height - height) / 2;
  width = width;
  height = height;
}

-- The popup; `none` for the panic.
unfoldable pub confirmation_popup : Rect → Option Rect
unfolding clamp
confirmation_popup area = elim (clamp (area.width * 3 % 2 ^ 16 / 4) 20 area.width) [
  | none ↦ none
  | some width ↦ elim (clamp (area.height * 3 % 2 ^ 16 / 4) 10 area.height) [
    | none ↦ none
    | some height ↦ some (centred area width height)
  ]
]

-- The rectangle lies in the other.
abbrev IsWithin : Rect → Rect → Type 0
IsWithin r area =
    (area.x ≤ r.x)
    × (area.y ≤ r.y)
    × (r.x + r.width ≤ area.x + area.width)
    × (r.y + r.height ≤ area.y + area.height)

-- The pairing code is drawn exactly where it fits together with its four rows, and then neither is
-- cut: both lie in the area, which ends within the terminal's coordinates.
draw_pairing_iff :
    (area : Rect) (qr : Rendered)
    → area.x + area.width < 2 ^ 16
    → area.y + area.height < 2 ^ 16
    → qr.height + pairing_footer_rows < 2 ^ 16
    → (((code rows : Rect) × (draw_pairing area qr ≡ some (code, rows)))
        ↔ ((qr.width ≤ area.width) × (qr.height + pairing_footer_rows ≤ area.height)))
      × ((code rows : Rect)
          → draw_pairing area qr ≡ some (code, rows)
          → IsWithin code area × IsWithin rows area)
unfolding draw_pairing
draw_pairing_iff area qr hx hy hq = (
  (λ h. ground arith, λ h. (code_area area qr, rows_area area qr, ground arith)),
  λ code rows h. ground arith,
)

-- The confirmation is drawn in the terminal's area, and is drawn at all exactly on a terminal of at
-- least 20 columns and 10 rows: on a smaller one drawing panics.
pub confirmation_popup_iff :
    (area : Rect)
    → area.x ≡ 0
    → area.y ≡ 0
    → (((popup : Rect) × (confirmation_popup area ≡ some popup))
        ↔ ((20 ≤ area.width) × (10 ≤ area.height)))
      × ((popup : Rect) → confirmation_popup area ≡ some popup → IsWithin popup area)
unfolding confirmation_popup
confirmation_popup_iff area hx hy = (
  (
    λ h. ground arith,
    λ h. (
      centred area (min (max (area.width * 3 % 2 ^ 16 / 4) 20) area.width)
          (min (max (area.height * 3 % 2 ^ 16 / 4) 10) area.height),
      ground arith,
    ),
  ),
  λ popup h. ground arith,
)
