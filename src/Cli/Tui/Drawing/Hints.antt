-- ===== src/Cli/Tui/Drawing/Hints.antt =====
-- What is drawn against what the keys do, and when drawing panics.
use penguinsync.Base.{
  ℕ, zero, suc, ◌+◌, ◌*◌, ◌<◌, ◌≡◌, ◌⊎◌, ◌↔◌, refl, subst, leb, Bytes, Str, str, true, false, List,
  [], ◌∷◌, Option, none, some, arith, All, length, min, Option-cases, inl, inr, take,
}
use penguinsync.Base.Text.{str_get, from_str_radix, is_char_boundary}
use penguinsync.Base.Time.{Instant}
use penguinsync.Protocol.Hex.{from_hex, hex_pairs, device_id_len}
use penguinsync.Cli.Tui.{
  App, Daemon, DeviceInfo, PendingConfirmation, PairingDisplay, confirm_pairing_call,
  start_pairing_call, unpair_call, char, esc, handle_key, answer_key, plain_key, press_p, press_u,
  selected_device,
}
use penguinsync.Cli.Tui.Layout.{Rect, confirmation_popup, confirmation_popup_iff}
use penguinsync.Cli.Tui.Drawing.{
  keys, Line, device_row, device_rows, draw_devices, draw_overlay, draw,
}

hex_pairs-get :
    (rounds i j n : ℕ) (s : Str) (bs : Bytes)
    → hex_pairs rounds i s ≡ some bs
    → j < rounds
    → i + j ≡ n
    → (pair : Str) × (str_get s (n * 2) (n * 2 + 2) ≡ some pair)
unfolding hex_pairs
hex_pairs-get zero i j n s bs h le e = absurd (omega arith)
hex_pairs-get (suc rounds) i zero n s bs h le e =
    elim (Option-cases (str_get s (i * 2) (i * 2 + 2))) [
      | inl bad ↦ ground arith
      | inr (pair, good) ↦
          let same : i ≡ n = omega arith in
          (pair, subst (λ k. str_get s (k * 2) (k * 2 + 2) ≡ some pair) same good)
    ]
hex_pairs-get (suc rounds) i (suc j) n s bs h le e =
    elim (Option-cases (str_get s (i * 2) (i * 2 + 2))) [
      | inl bad ↦ ground arith
      | inr (pair, good) ↦ elim (Option-cases (from_str_radix 16 255 pair)) [
        | inl bad ↦ ground arith
        | inr (b, value) ↦ elim (Option-cases (hex_pairs rounds (suc i) s)) [
          | inl bad ↦ ground arith
          | inr (rest, more) ↦
              hex_pairs-get rounds (suc i) j n s rest more (omega arith) (omega arith)
        ]
      ]
    ]

-- An id that reads as hex can be cut after its first 16 bytes.
cut_at_16 :
    (s : Str) (id : Bytes)
    → from_hex s ≡ some id
    → (p : Str) × (str_get s 0 (min 16 (length s)) ≡ some p)
unfolding from_hex str_get
cut_at_16 s id h =
    let len : length s ≡ 64 = ground arith in
    let (pair, found) = hex_pairs-get device_id_len 0 8 8 s id (ground arith) (omega arith) refl in
    let boundary : is_char_boundary s 16 ≡ true = ground arith in
    let cut : min 16 (length s) ≡ 16 = omega arith in
    let fits : leb 16 (length s) ≡ true = ground arith in (take 16 s, rw (cut, fits, boundary))

-- The hints of a screen are the keys that do what they say: on a confirmation `y` accepts and `n`
-- rejects the device that asks; over a pairing code Esc takes the code away and goes on; else `p`
-- asks for a code, `u` unpairs the selected device if there is one, and `q` ends the interface.
abbrev IsHonest :
    App → Daemon → Instant → Option PendingConfirmation → Option PairingDisplay → Type 0
IsHonest app daemon now (some c) display =
    (keys app ≡ (str "y", str "confirm") ∷ (str "n", str "reject") ∷ [])
    × ((handle_key app daemon (char b'y') now).calls ≡ confirm_pairing_call c.device_id true ∷ [])
    × ((handle_key app daemon (char b'n') now).calls ≡ confirm_pairing_call c.device_id false ∷ [])
IsHonest app daemon now none (some p) =
    (keys app ≡ (str "Esc", str "dismiss") ∷ [])
    × ((handle_key app daemon esc now).app ≡ record app { pairing_display = none })
    × ((handle_key app daemon esc now).running ≡ true)
IsHonest app daemon now none none =
    (length (keys app) ≡ 4)
    × ((handle_key app daemon (char b'p') now).calls ≡ start_pairing_call ∷ [])
    × ((handle_key app daemon (char b'u') now).calls
        ≡ elim (selected_device app) [ none ↦ [] | some d ↦ unpair_call d.device_id ∷ [] ])
    × ((handle_key app daemon (char b'q') now).running ≡ false)

keys-IsHonest :
    (app : App) (daemon : Daemon) (now : Instant)
    → IsHonest app daemon now app.confirmation app.pairing_display
unfolding keys handle_key answer_key plain_key press_p press_u selected_device
keys-IsHonest app daemon now = shown app.confirmation app.pairing_display refl refl
  where
    shown :
        (c : Option PendingConfirmation) (p : Option PairingDisplay)
        → app.confirmation ≡ c
        → app.pairing_display ≡ p
        → IsHonest app daemon now c p
    shown (some c) p e f = (ground arith, ground arith, ground arith)
    shown none (some p) e f = (ground arith, ground arith, ground arith)
    shown none none e f = (ground arith, ground arith, ground arith, ground arith)

-- The device's id reads as hex, as the daemon's objects do.
abbrev IsReadable : DeviceInfo → Type 0
IsReadable d = (id : Bytes) × (from_hex d.device_id ≡ some id)

device_row_total : (d : DeviceInfo) → IsReadable d → (row : Line) × (device_row d ≡ some row)
unfolding device_row
device_row_total d (id, reads) =
    let (prefix, cut) = cut_at_16 d.device_id id reads in
    elim (Option-cases (device_row d)) [
      | inl bad ↦ absurd (ground arith)
      | inr (row, drawn) ↦ (row, drawn)
    ]

device_rows_total :
    (ds : List DeviceInfo) → All IsReadable ds → (rows : List Line) × (device_rows ds ≡ some rows)
unfolding device_rows
device_rows_total [] h = ([], refl)
device_rows_total (d ∷ rest) h =
    let (row, drawn) = device_row_total d h.0 in
    let (rows, more) = device_rows_total rest h.1 in (row ∷ rows, ground arith)

draw_devices_total :
    (app : App)
    → All IsReadable app.devices
    → (shown : List Line × Option ℕ) × (draw_devices app ≡ some shown)
unfolding draw_devices
draw_devices_total app h = drawn app.devices h refl
  where
    drawn :
        (ds : List DeviceInfo)
        → All IsReadable ds
        → app.devices ≡ ds
        → (shown : List Line × Option ℕ) × (draw_devices app ≡ some shown)
    drawn [] k e = elim (Option-cases (draw_devices app)) [
      | inl bad ↦ absurd (ground arith)
      | inr found ↦ found
    ]
    drawn (d ∷ rest) k e =
        let (rows, made) = device_rows_total (d ∷ rest) k in
        ((rows, some app.selected), ground arith)

-- Drawing panics exactly when a confirmation is due on a terminal of fewer than 20 columns or 10
-- rows, if the ids of the devices read as hex.
pub draw_iff :
    (split : Rect → Rect × Rect × Rect) (app : App) (area : Rect) (now : Instant)
    → area.x ≡ 0
    → area.y ≡ 0
    → All IsReadable app.devices
    → (draw split app area now ≡ none) ↔ (
        (c : PendingConfirmation) × (app.confirmation ≡ some c)
        × ((area.width < 20) ⊎ (area.height < 10)))
unfolding draw draw_overlay
draw_iff split app area now hx hy readable =
    let (shown, drawn) = draw_devices_total app readable in
    let popup = confirmation_popup_iff area hx hy in
    (
      λ h. elim (Option-cases app.confirmation) [
        | inl quiet ↦ elim (Option-cases app.pairing_display) [
          | inl plain ↦ ground arith
          | inr (p, code_up) ↦ ground arith
        ]
        | inr (c, due) ↦ elim (Option-cases (confirmation_popup area)) [
          | inl bad ↦ (c, due, ground arith)
          | inr (r, fine) ↦ ground arith
        ]
      ],
      λ (c, due, small). elim (Option-cases (confirmation_popup area)) [
        | inl bad ↦ ground arith
        | inr (r, fine) ↦ absurd (ground arith)
      ],
    )
