-- ===== src/Net/Framing.antt =====
-- crates/net/src/framing.rs: messages behind a length header of four bytes.
pub mod RoundTrip
use penguinsync.Base.{
  ℕ, ◌+◌, ◌*◌, ◌/◌, ◌%◌, ◌^◌, ◌-◌, Bytes, [], ◌∷◌, Option, none, some, length, ltb, if◌then◌else◌,
}
use penguinsync.Base.Result.{Result, ok, err, ◌>>=◌, map_err}
use penguinsync.Protocol.Message.{Message, Postcard, CodecError, encode, decode}
use penguinsync.Net.Transport.{Quic}

abbrev pub max_frame_len : ℕ
max_frame_len = 1024 * 1024

abbrev pub u32_max : ℕ
u32_max = 2 ^ 32 - 1

-- `u32::to_le_bytes`, `u32::from_le_bytes`
unfoldable pub to_le_bytes : ℕ → Bytes
to_le_bytes n = n % 256 ∷ n / 256 % 256 ∷ n / 65536 % 256 ∷ n / 16777216 % 256 ∷ []

unfoldable pub from_le_bytes : Bytes → ℕ
from_le_bytes (a ∷ b ∷ c ∷ d ∷ _) = a + b * 256 + c * 65536 + d * 16777216
from_le_bytes _ = 0

pub data FramingError (W R E : Type 0) : Type 0 where
  frame_too_large : ℕ → FramingError W R E
  write : W → FramingError W R E
  read : R → FramingError W R E
  decoding : CodecError E → FramingError W R E

module _ (postcard : Postcard) (quic : Quic) where
  open postcard use {Error}
  open quic use {SendStream, RecvStream, WriteError, ReadError, write_all, read_exact}

  abbrev pub Framing : Type 0
  Framing = FramingError WriteError ReadError Error

  unfoldable pub write_frame : SendStream → Bytes → Result Framing SendStream
  write_frame stream bytes = do
    stream' ← map_err write (write_all stream (to_le_bytes (length bytes)))
    map_err write (write_all stream' bytes)

  -- `none` is the panic of either `expect`.
  unfoldable pub write_message : SendStream → Message → Option (Result Framing SendStream)
  write_message stream msg = elim (encode postcard msg) [
    | err e ↦ none
    | ok bytes ↦ if ltb u32_max (length bytes) then none else some (write_frame stream bytes)
  ]

  unfoldable pub read_body : RecvStream → ℕ → Result Framing (Message × RecvStream)
  read_body stream len = if ltb max_frame_len len then err (frame_too_large len) else do
    (buf, stream') ← map_err read (read_exact stream len)
    msg ← map_err decoding (decode postcard buf)
    ok (msg, stream')

  unfoldable pub read_message : RecvStream → Result Framing (Message × RecvStream)
  read_message stream = do
    (len_buf, stream') ← map_err read (read_exact stream 4)
    read_body stream' (from_le_bytes len_buf)
