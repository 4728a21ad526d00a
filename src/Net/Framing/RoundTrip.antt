-- ===== src/Net/Framing/RoundTrip.antt =====
-- What is written is read back, and what the reader refuses.
use penguinsync.Base.{
  ℕ, ◌≤◌, ◌<◌, ◌≡◌, refl, ap, ◌∙◌, Bytes, ◌++◌, some, length, take, drop, ltb, arith, length-append,
  take-append_length, drop-append_length, le→not_ltb, lt→ltb, append-left-cancel, Bool-cases, inl,
  inr,
}
use mathlib.Core.List.{append_assoc}
use mathlib.Core.Option.{some-injective}
use penguinsync.Base.Result.{ok, err, map_err, >>=-eq-ok, map_err-eq-ok}
use penguinsync.Protocol.Message.{Message, Postcard, encode, decode, encode_error}
use penguinsync.Net.Transport.{Quic}
use penguinsync.Net.Framing.{
  frame_too_large, write, max_frame_len, u32_max, to_le_bytes, from_le_bytes, write_frame,
  write_message, read_body, read_message,
}

from_le_bytes-to_le_bytes : (n : ℕ) → n ≤ u32_max → from_le_bytes (to_le_bytes n) ≡ n
unfolding from_le_bytes to_le_bytes
from_le_bytes-to_le_bytes n h = omega arith

length-to_le_bytes : (n : ℕ) → length (to_le_bytes n) ≡ 4
unfolding to_le_bytes
length-to_le_bytes n = refl

-- The bytes of a frame around an encoded message.
abbrev pub frame : Bytes → Bytes
frame bytes = to_le_bytes (length bytes) ++ bytes

module _ (postcard : Postcard) (quic : Quic) where
  open quic use {SendStream, RecvStream, sent, incoming, read_exact, write_all}

  -- A header that arrived whole hands its number to the body.
  read_header :
      (r : RecvStream) (n : ℕ) (rest : Bytes)
      → n ≤ u32_max
      → incoming r ≡ to_le_bytes n ++ rest
      → (r' : RecvStream) × (read_message postcard quic r ≡ read_body postcard quic r' n)
        × (incoming r' ≡ rest)
  unfolding read_message
  read_header r n rest h e =
      let (r', step, left) =
        quic.read_exact-incoming r 4
          (omega (arith, ap length e, length-append (to_le_bytes n) rest, length-to_le_bytes n)) in
      (
        r',
        rw step (
            ap (read_body postcard quic r') (
              ap (λ (s : Bytes). from_le_bytes (take 4 s)) e
              ∙ ap from_le_bytes (take-append_length 4 (to_le_bytes n) rest (length-to_le_bytes n))
              ∙ from_le_bytes-to_le_bytes n h)),
        left ∙ ap (drop 4) e ∙ drop-append_length 4 (to_le_bytes n) rest (length-to_le_bytes n),
      )

  decode-encode :
      (m : Message) (bytes : Bytes) → encode postcard m ≡ ok bytes → decode postcard bytes ≡ ok m
  unfolding encode decode
  decode-encode m bytes e = rw (
      postcard.from_bytes-to_allocvec m bytes
        (map_err-eq-ok encode_error (postcard.to_allocvec m) e))

  read_frame :
      (r : RecvStream) (m : Message) (bytes rest : Bytes)
      → encode postcard m ≡ ok bytes
      → length bytes ≤ max_frame_len
      → incoming r ≡ bytes ++ rest
      → (r' : RecvStream) × (read_body postcard quic r (length bytes) ≡ ok (m, r'))
        × (incoming r' ≡ rest)
  unfolding read_body
  read_frame r m bytes rest enc h e =
      let (r', step, left) =
        quic.read_exact-incoming r (length bytes)
          (omega (arith, ap length e, length-append bytes rest)) in
      let whole : take (length bytes) (incoming r) ≡ bytes =
        ap (take (length bytes)) e ∙ take-append_length (length bytes) bytes rest refl in
      (
        r',
        rw (le→not_ltb max_frame_len (length bytes) h)
            (rw step (rw whole (rw (decode-encode m bytes enc)))),
        left ∙ ap (drop (length bytes)) e ∙ drop-append_length (length bytes) bytes rest refl,
      )

  sent-write_frame :
      (s s' : SendStream) (bytes : Bytes)
      → write_frame postcard quic s bytes ≡ ok s'
      → sent s' ≡ sent s ++ frame bytes
  unfolding write_frame
  sent-write_frame s s' bytes e =
      let (s1, header, body) =
        >>=-eq-ok (map_err write (write_all s (to_le_bytes (length bytes)))) _ e in
      quic.sent-write_all s1 s' bytes (map_err-eq-ok write (write_all s1 bytes) body)
      ∙ ap (λ (b : Bytes). b ++ bytes)
          (quic.sent-write_all s s1 (to_le_bytes (length bytes))
            (map_err-eq-ok write (write_all s (to_le_bytes (length bytes))) header))
      ∙ append_assoc (sent s) (to_le_bytes (length bytes)) bytes

  pub sent-write_message :
      (s s' : SendStream) (m : Message) (bytes : Bytes)
      → encode postcard m ≡ ok bytes
      → write_message postcard quic s m ≡ some (ok s')
      → (length bytes ≤ u32_max) × (sent s' ≡ sent s ++ frame bytes)
  unfolding write_message
  sent-write_message s s' m bytes enc e = elim (Bool-cases (ltb u32_max (length bytes))) [
    | inl large ↦ cc (rw (enc, write_message, large) at e)
    | inr small ↦ (
      ground arith,
      sent-write_frame s s' bytes (some-injective _ _ (rw (enc, write_message, small) at e)),
    )
  ]

  -- A frame within the limit that has arrived is read, and what follows it is left for the next read.
  pub read_frame_message :
      (r : RecvStream) (m : Message) (bytes rest : Bytes)
      → encode postcard m ≡ ok bytes
      → length bytes ≤ max_frame_len
      → incoming r ≡ frame bytes ++ rest
      → (r' : RecvStream) × (read_message postcard quic r ≡ ok (m, r')) × (incoming r' ≡ rest)
  read_frame_message r m bytes rest enc h pending =
      let (r1, header, left) =
        read_header r (length bytes) (bytes ++ rest) (omega (arith, h))
          (pending ∙ append_assoc (to_le_bytes (length bytes)) bytes rest) in
      let (r2, body, left') = read_frame r1 m bytes rest enc h left in (r2, header ∙ body, left')

  -- A message within the frame limit that was written is read back by a peer whom the bytes reach in
  -- order, and what follows it on the stream is left for the next read.
  pub read-write_message :
      (s s' : SendStream) (r : RecvStream) (m : Message) (bytes rest : Bytes)
      → encode postcard m ≡ ok bytes
      → length bytes ≤ max_frame_len
      → write_message postcard quic s m ≡ some (ok s')
      → sent s ++ incoming r ≡ sent s' ++ rest
      → (r' : RecvStream) × (read_message postcard quic r ≡ ok (m, r')) × (incoming r' ≡ rest)
  read-write_message s s' r m bytes rest enc h wrote arrives =
      let (fits, grown) = sent-write_message s s' m bytes enc wrote in
      read_frame_message r m bytes rest enc h (
        append-left-cancel (sent s) (
          arrives ∙ ap (λ (b : Bytes). b ++ rest) grown ∙ append_assoc (sent s) (frame bytes) rest))

  -- The writer has no limit of its own below 2 ^ 32 bytes: a message whose encoding is longer than
  -- the frame limit is written, and the peer whom it reaches refuses it from its header alone.
  read-write_message_oversized :
      (s s' : SendStream) (r : RecvStream) (m : Message) (bytes rest : Bytes)
      → encode postcard m ≡ ok bytes
      → max_frame_len < length bytes
      → write_message postcard quic s m ≡ some (ok s')
      → sent s ++ incoming r ≡ sent s' ++ rest
      → read_message postcard quic r ≡ err (frame_too_large (length bytes))
  read-write_message_oversized s s' r m bytes rest enc h wrote arrives =
      let (fits, grown) = sent-write_message s s' m bytes enc wrote in
      let pending : incoming r ≡ frame bytes ++ rest = append-left-cancel (sent s) (
        arrives ∙ ap (λ (b : Bytes). b ++ rest) grown ∙ append_assoc (sent s) (frame bytes) rest) in
      let (r1, header, left) =
        read_header r (length bytes) (bytes ++ rest) fits
          (pending ∙ append_assoc (to_le_bytes (length bytes)) bytes rest) in
      header ∙ unfold read_body in rw (lt→ltb max_frame_len (length bytes) h)

  -- A read that is dropped behind the header of a frame loses the header: the next read takes the
  -- first four bytes of the message for a length, and refuses the stream if they name a long one.
  pub read-abandon :
      (r : RecvStream) (n : ℕ) (len : ℕ) (rest : Bytes)
      → max_frame_len < n
      → n ≤ u32_max
      → incoming r ≡ to_le_bytes len ++ (to_le_bytes n ++ rest)
      → read_message postcard quic (quic.abandon r 4) ≡ err (frame_too_large n)
  read-abandon r n len rest large fits arrives =
      let left : incoming (quic.abandon r 4) ≡ to_le_bytes n ++ rest =
        quic.incoming-abandon r 4
        ∙ ap (drop 4) arrives
        ∙ drop-append_length 4 (to_le_bytes len) (to_le_bytes n ++ rest) (length-to_le_bytes len) in
      let (r1, header, _) = read_header (quic.abandon r 4) n rest fits left in
      header ∙ unfold read_body in rw (lt→ltb max_frame_len n large)
