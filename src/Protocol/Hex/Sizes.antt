-- ===== src/Protocol/Hex/Sizes.antt =====
-- What the hexadecimal readers return always has the size of the Rust array.
use penguinsync.Base.{
  ℕ, zero, suc, ◌+◌, ◌*◌, ◌≡◌, inl, inr, some, Bytes, Str, IsArray, arith, Option-cases,
}
use penguinsync.Base.Text.{str_get, from_str_radix, from_str_radix-le}
use penguinsync.Protocol.Hex.{hex_pairs, from_hex, hex_decode_token, device_id_len, token_len}

hex_pairs-IsArray :
    (rounds i : ℕ) (s : Str) (bs : Bytes) → hex_pairs rounds i s ≡ some bs → IsArray rounds bs
unfolding hex_pairs
hex_pairs-IsArray zero i s bs e = ground arith
hex_pairs-IsArray (suc rounds) i s bs e = elim (Option-cases (str_get s (i * 2) (i * 2 + 2))) [
  | inl bad ↦ ground arith
  | inr (pair, good) ↦ elim (Option-cases (from_str_radix 16 255 pair)) [
    | inl bad ↦ ground arith
    | inr (b, value) ↦ elim (Option-cases (hex_pairs rounds (suc i) s)) [
      | inl bad ↦ ground arith
      | inr (rest, more) ↦ ground (
        arith,
        from_str_radix-le 16 255 pair b value,
        hex_pairs-IsArray rounds (suc i) s rest more,
      )
    ]
  ]
]

pub from_hex-IsArray : (s : Str) (id : Bytes) → from_hex s ≡ some id → IsArray device_id_len id
unfolding from_hex
from_hex-IsArray s id e = ground (arith, hex_pairs-IsArray device_id_len 0 s id)

pub hex_decode_token-IsArray :
    (s : Str) (token : Bytes) → hex_decode_token s ≡ some token → IsArray token_len token
unfolding hex_decode_token
hex_decode_token-IsArray s token e = ground (arith, hex_pairs-IsArray token_len 0 s token)
