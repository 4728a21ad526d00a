-- ===== src/Protocol/Hex/Fingerprint.antt =====
-- What the short fingerprint tells two device ids apart by.
use penguinsync.Base.{
  ℕ, ◌+◌, ◌-◌, ◌*◌, ◌≤◌, ◌/◌, ◌%◌, ◌≡◌, refl, ap, ◌↔◌, [], ◌∷◌, Bytes, Str, IsArray, length, take,
  arith, ltb, if◌then◌else◌,
}
use penguinsync.Protocol.Hex.{
  hex_digit, byte_hex, fingerprint_groups, join, short_fingerprint, device_id_len,
}

undigit : ℕ → ℕ
undigit c = if ltb c 58 then c - 48 else c - 87

undigit-byte_hex : (b : ℕ) → undigit (hex_digit (b / 16)) * 16 + undigit (hex_digit (b % 16)) ≡ b
unfolding undigit hex_digit
undigit-byte_hex b = ground arith

-- Reads the bytes back from a printed fingerprint.
strip : Str → Bytes
strip (a ∷ b ∷ c ∷ d ∷ sep ∷ s) =
    (undigit a * 16 + undigit b) ∷ (undigit c * 16 + undigit d) ∷ strip s
strip (a ∷ b ∷ c ∷ d ∷ []) = (undigit a * 16 + undigit b) ∷ (undigit c * 16 + undigit d) ∷ []
strip _ = []

-- An even number of bytes.
IsEven : Bytes → Type 0
IsEven [] = Unit
IsEven (a ∷ []) = ⊥
IsEven (a ∷ b ∷ bs) = IsEven bs

strip-join : (bs : Bytes) → IsEven bs → strip (join b'-' (fingerprint_groups bs)) ≡ bs
unfolding strip join fingerprint_groups byte_hex IsEven
strip-join [] h = refl
strip-join (a ∷ []) h = absurd h
strip-join (a ∷ b ∷ []) h = rw (undigit-byte_hex a, undigit-byte_hex b)
strip-join (a ∷ b ∷ c ∷ []) h = absurd h
strip-join (a ∷ b ∷ c ∷ d ∷ bs) h =
    rw (undigit-byte_hex a, undigit-byte_hex b) (ap (λ s. a ∷ b ∷ s) (strip-join (c ∷ d ∷ bs) h))

IsEven-take : (bs : Bytes) → 8 ≤ length bs → IsEven (take 8 bs)
unfolding IsEven
IsEven-take (a ∷ b ∷ c ∷ d ∷ e ∷ f ∷ g ∷ i ∷ bs) h = tt
IsEven-take _ h = absurd (omega arith)

-- Two device ids have the same short fingerprint exactly when they share their first eight bytes.
short_fingerprint_iff :
    (a b : Bytes)
    → IsArray device_id_len a
    → IsArray device_id_len b
    → (short_fingerprint a ≡ short_fingerprint b) ↔ (take 8 a ≡ take 8 b)
unfolding short_fingerprint
short_fingerprint_iff a b ha hb = (forward, λ e. ap (λ bs. join b'-' (fingerprint_groups bs)) e)
  where
    forward : short_fingerprint a ≡ short_fingerprint b → take 8 a ≡ take 8 b
    forward e = cc (
      strip-join (take 8 a) (IsEven-take a (omega (arith, ha.0))),
      strip-join (take 8 b) (IsEven-take b (omega (arith, hb.0))),
      ap strip e,
    )
