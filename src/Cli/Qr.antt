-- ===== src/Cli/Qr.antt =====
-- crates/cli/src/qr.rs: a pairing URI as a QR code in the terminal.
use penguinsync.Base.{
  ℕ, suc, ◌^◌, ◌-◌, max, Str, List, [], ◌∷◌, ltb, leb, ◌&&◌, if◌then◌else◌, length,
}
use penguinsync.Base.Result.{Result, ok, err}

abbrev pub u16_max : ℕ
u16_max = 2 ^ 16 - 1

-- `text` by its lines.
pub record Rendered : Type 0 where
  pub text : List Str
  pub width : ℕ
  pub height : ℕ

-- `chars().count()` of UTF-8: every byte but those inside a character.
unfoldable pub char_count : Str → ℕ
char_count [] = 0
char_count (b ∷ rest) = if leb 128 b && ltb b 192 then char_count rest else suc (char_count rest)

unfoldable pub widest : List Str → ℕ
unfolding char_count
widest [] = 0
widest (l ∷ rest) = max (char_count l) (widest rest)

-- `try_into().unwrap_or(u16::MAX)`
abbrev pub to_u16 : ℕ → ℕ
to_u16 n = if leb n u16_max then n else u16_max

-- The `qrcode` crate encodes the text and draws it as lines.
unfoldable pub render : (Str → Result Str (List Str)) → Str → Result Str Rendered
unfolding widest
render qrcode uri = elim (qrcode uri) [
  | err e ↦ err e
  | ok text ↦
      ok (record { text = text; width = to_u16 (widest text); height = to_u16 (length text) })
]
