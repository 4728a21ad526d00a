-- ===== src/Protocol/Hex.antt =====
-- crates/protocol/src/message.rs and pairing.rs: device ids and tokens as hexadecimal text.
pub mod RoundTrip
pub mod Fingerprint
pub mod Sizes
use penguinsync.Base.{
  ℕ, zero, suc, ◌+◌, ◌*◌, ◌/◌, ◌%◌, List, [], ◌∷◌, ◌++◌, Option, none, some, Bytes, Str, length,
  take, ltb, ◌==◌, if◌then◌else◌,
}
use penguinsync.Base.Text.{◌>>=◌, str_get, from_str_radix}

-- `DeviceId = [u8; 32]`
abbrev pub device_id_len : ℕ
device_id_len = 32

abbrev pub token_len : ℕ
token_len = 16

unfoldable pub hex_digit : ℕ → ℕ
hex_digit d = if ltb d 10 then d + b'0' else d + 87

-- `format!("{b:02x}")` of one byte.
unfoldable pub byte_hex : ℕ → Str
unfolding hex_digit
byte_hex b = hex_digit (b / 16) ∷ hex_digit (b % 16) ∷ []

unfoldable pub to_hex : Bytes → Str
unfolding byte_hex
to_hex [] = []
to_hex (b ∷ bs) = byte_hex b ++ to_hex bs

-- The loop that fills `rounds` bytes from the pairs of characters at `i`, `i + 1`, …
unfoldable pub hex_pairs : ℕ → ℕ → Str → Option Bytes
hex_pairs zero i s = some []
hex_pairs (suc rounds) i s = do
  pair ← str_get s (i * 2) (i * 2 + 2)
  b ← from_str_radix 16 255 pair
  rest ← hex_pairs rounds (suc i) s
  some (b ∷ rest)

unfoldable pub from_hex : Str → Option Bytes
from_hex s = if length s == 64 then hex_pairs device_id_len 0 s else none

unfoldable pub hex_encode : Bytes → Str
unfolding byte_hex
hex_encode [] = []
hex_encode (b ∷ bs) = byte_hex b ++ hex_encode bs

unfoldable pub hex_decode_token : Str → Option Bytes
hex_decode_token s = if length s == token_len * 2 then hex_pairs token_len 0 s else none

-- `.chunks(2).map(|pair| format!("{:02x}{:02x}", pair[0], pair[1]))`
fingerprint_groups : Bytes → List Str
unfolding byte_hex
fingerprint_groups (a ∷ b ∷ bs) = (byte_hex a ++ byte_hex b) ∷ fingerprint_groups bs
fingerprint_groups _ = []

join : ℕ → List Str → Str
join sep [] = []
join sep (s ∷ []) = s
join sep (s ∷ t ∷ ts) = s ++ sep ∷ join sep (t ∷ ts)

unfoldable pub short_fingerprint : Bytes → Str
unfolding fingerprint_groups join
short_fingerprint id = join b'-' (fingerprint_groups (take 8 id))
