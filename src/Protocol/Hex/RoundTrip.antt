-- ===== src/Protocol/Hex/RoundTrip.antt =====
-- Hexadecimal text read back, and what else the reader accepts.
use mathlib.Core.List.{append_assoc}
use penguinsync.Base.{
  ℕ, suc, ◌+◌, ◌*◌, ◌<◌, ◌≤◌, ◌/◌, ◌%◌, ◌≡◌, refl, ◌≢◌, ◌∙◌, ap, [], ◌∷◌, ◌++◌, some, Bytes, Str,
  IsArray, IsByte, All, All-append, length, length-append, arith,
}
use penguinsync.Base.Text.{str_get-pair, to_digit, parse_digits, from_str_radix, IsAscii}
use penguinsync.Protocol.Hex.{
  hex_digit, byte_hex, to_hex, hex_pairs, from_hex, hex_encode, hex_decode_token, device_id_len,
  token_len,
}

hex_digit-bounds : (d : ℕ) → d < 16 → (48 ≤ hex_digit d) × (hex_digit d < 128)
unfolding hex_digit
hex_digit-bounds d h = ground arith

to_digit-hex_digit : (d : ℕ) → d < 16 → to_digit 16 (hex_digit d) ≡ some d
unfolding to_digit hex_digit
to_digit-hex_digit d h = ground arith

from_str_radix-digits :
    (q r : ℕ)
    → q < 16
    → r < 16
    → from_str_radix 16 255 (hex_digit q ∷ hex_digit r ∷ []) ≡ some (q * 16 + r)
unfolding from_str_radix parse_digits
from_str_radix-digits q r hq hr =
    ground (arith, hex_digit-bounds q hq, to_digit-hex_digit q hq, to_digit-hex_digit r hr)

from_str_radix-plus : (r : ℕ) → r < 16 → from_str_radix 16 255 (b'+' ∷ hex_digit r ∷ []) ≡ some r
unfolding from_str_radix parse_digits
from_str_radix-plus r hr = ground (arith, to_digit-hex_digit r hr)

length-to_hex : (bs : Bytes) → length (to_hex bs) ≡ length bs * 2
unfolding to_hex
length-to_hex [] = refl
length-to_hex (b ∷ bs) = omega (arith, length-to_hex bs)

to_hex-IsAscii : (bs : Bytes) → All IsByte bs → IsAscii (to_hex bs)
unfolding to_hex byte_hex
to_hex-IsAscii [] h = tt
to_hex-IsAscii (b ∷ bs) h =
    let q = hex_digit-bounds (b / 16) (omega (arith, h.0)) in
    let r = hex_digit-bounds (b % 16) (omega arith) in (q.1, (r.1, to_hex-IsAscii bs h.1))

-- The loop reads back what stands behind any prefix of the right length.
hex_pairs-to_hex :
    (i : ℕ) (pre : Str) (bs : Bytes)
    → IsAscii pre
    → All IsByte bs
    → length pre ≡ i * 2
    → hex_pairs (length bs) i (pre ++ to_hex bs) ≡ some bs
unfolding hex_pairs
hex_pairs-to_hex i pre [] ha h len = refl
hex_pairs-to_hex i pre (b ∷ bs) ha h len =
    let q : ℕ = hex_digit (b / 16) in
    let r : ℕ = hex_digit (b % 16) in
    let hq : b / 16 < 16 = omega (arith, h.0) in
    let hr : b % 16 < 16 = omega arith in
    let pair : Str = q ∷ r ∷ [] in
    let start : pre ++ to_hex (b ∷ bs) ≡ pre ++ q ∷ r ∷ to_hex bs =
      unfold to_hex byte_hex in refl in
    let ascii : IsAscii (pre ++ q ∷ r ∷ to_hex bs) =
      All-append _ pre (q ∷ r ∷ to_hex bs) ha
        ((hex_digit-bounds _ hq).1, ((hex_digit-bounds _ hr).1, to_hex-IsAscii bs h.1)) in
    let ascii' : IsAscii (pre ++ pair) =
      All-append _ pre pair ha ((hex_digit-bounds _ hq).1, ((hex_digit-bounds _ hr).1, tt)) in
    let ih : hex_pairs (length bs) (suc i) (pre ++ q ∷ r ∷ to_hex bs) ≡ some bs =
      rw (← append_assoc pre pair (to_hex bs)) (
        hex_pairs-to_hex (suc i) (pre ++ pair) bs ascii' h.1
          (omega (arith, length-append pre pair))) in
    let value : b / 16 * 16 + b % 16 ≡ b = omega arith in
    rw (start, str_get-pair i q r pre (to_hex bs) ascii len)
      (rw (from_str_radix-digits _ _ hq hr) (rw (ih, value)))

-- A device id printed by `to_hex` is read back by `from_hex`.
pub from_hex-to_hex : (id : Bytes) → IsArray device_id_len id → from_hex (to_hex id) ≡ some id
unfolding from_hex
from_hex-to_hex id h =
    let len : length (to_hex id) ≡ 64 = omega (arith, length-to_hex id) in
    rw (len) (rw (← h.0) (hex_pairs-to_hex 0 [] id tt h.1 refl))

hex_encode-eq-to_hex : (bs : Bytes) → hex_encode bs ≡ to_hex bs
unfolding hex_encode to_hex byte_hex
hex_encode-eq-to_hex [] = refl
hex_encode-eq-to_hex (b ∷ bs) = rw (hex_encode-eq-to_hex bs)

-- A pairing token printed by `hex_encode` is read back by `hex_decode_token`.
pub hex_decode_token-hex_encode :
    (token : Bytes) → IsArray token_len token → hex_decode_token (hex_encode token) ≡ some token
unfolding hex_decode_token
hex_decode_token-hex_encode token h =
    let len : length (hex_encode token) ≡ 32 =
      omega (arith, length-to_hex token, ap length (hex_encode-eq-to_hex token)) in
    rw (len) (rw (← h.0, hex_encode-eq-to_hex token) (hex_pairs-to_hex 0 [] token tt h.1 refl))

pub to_hex-injective :
    (a b : Bytes) → IsArray device_id_len a → IsArray device_id_len b → to_hex a ≡ to_hex b → a ≡ b
to_hex-injective a b ha hb e = cc (from_hex-to_hex a ha, from_hex-to_hex b hb, ap from_hex e)

hex_digit-ne-plus : (q : ℕ) (s t : Str) → q < 16 → b'+' ∷ s ≢ hex_digit q ∷ t
hex_digit-ne-plus q s t h e = ground (arith, hex_digit-bounds q h)

-- The reader takes a plus sign for a first digit 0: an id whose first byte is below 16 has a second
-- spelling, which `to_hex` never prints.
from_hex_plus :
    (d : ℕ) (bs : Bytes)
    → d < 16
    → IsArray device_id_len (d ∷ bs)
    → (from_hex (b'+' ∷ hex_digit d ∷ to_hex bs) ≡ some (d ∷ bs))
      × (b'+' ∷ hex_digit d ∷ to_hex bs ≢ to_hex (d ∷ bs))
unfolding from_hex
from_hex_plus d bs hd h = (read, differs)
  where
    len : length (b'+' ∷ hex_digit d ∷ to_hex bs) ≡ 64
    len = omega (arith, length-to_hex bs, h.0)

    ascii : IsAscii (b'+' ∷ hex_digit d ∷ to_hex bs)
    ascii = (omega arith, ((hex_digit-bounds d hd).1, to_hex-IsAscii bs (h.1).1))

    tail_read : hex_pairs 31 1 (b'+' ∷ hex_digit d ∷ to_hex bs) ≡ some bs
    tail_read =
        let n : length bs ≡ 31 = omega (arith, h.0) in
        rw (← n) (
          hex_pairs-to_hex 1 (b'+' ∷ hex_digit d ∷ []) bs
            (omega arith, ((hex_digit-bounds d hd).1, tt)) (h.1).1 refl)

    read : from_hex (b'+' ∷ hex_digit d ∷ to_hex bs) ≡ some (d ∷ bs)
    read = rw (len) (
        unfold hex_pairs in
        rw (str_get-pair 0 b'+' (hex_digit d) [] (to_hex bs) ascii refl)
          (rw (from_str_radix-plus d hd) (rw (tail_read))))

    differs : b'+' ∷ hex_digit d ∷ to_hex bs ≢ to_hex (d ∷ bs)
    differs e =
        let printed : to_hex (d ∷ bs) ≡ hex_digit (d / 16) ∷ hex_digit (d % 16) ∷ to_hex bs =
          unfold to_hex byte_hex in refl in
        hex_digit-ne-plus (d / 16) (hex_digit d ∷ to_hex bs) (hex_digit (d % 16) ∷ to_hex bs)
          (omega arith) (e ∙ printed)
