-- ===== src/Protocol/Message.antt =====
-- crates/protocol/src/message.rs and lib.rs: the messages of the control stream and their codec.
use penguinsync.Base.{ℕ, ◌≡◌, Bytes, Str, List, Option}
use penguinsync.Base.Result.{Result, ok, map_err}
use penguinsync.Protocol.Clip.{Clip}

abbrev pub protocol_version : ℕ
protocol_version = 1

pub data Capability : Type 0 where
  clipboard files notifications : Capability

pub record Handshake : Type 0 where
  pub version : ℕ
  pub device_id : Bytes
  pub name : Str
  pub capabilities : List Capability
  pub pairing_token : Option Bytes

pub record Ping : Type 0 where
  pub nonce : ℕ

pub record Pong : Type 0 where
  pub nonce : ℕ

pub data Message : Type 0 where
  handshake : Handshake → Message
  ping : Ping → Message
  pong : Pong → Message
  clipboard : Clip → Message

-- The `postcard` crate: a writer and a reader of messages, of which the source relies on this: what
-- was written is read back.
pub record Postcard : Type 1 where
  pub Error : Type 0
  pub to_allocvec : Message → Result Error Bytes
  pub from_bytes : Bytes → Result Error Message
  pub from_bytes-to_allocvec :
      (m : Message) (bs : Bytes) → to_allocvec m ≡ ok bs → from_bytes bs ≡ ok m

pub data CodecError (E : Type 0) : Type 0 where
  encode_error : E → CodecError E
  decode_error : E → CodecError E

module _ (postcard : Postcard) where
  open postcard use {Error, to_allocvec, from_bytes}

  unfoldable pub encode : Message → Result (CodecError Error) Bytes
  encode msg = map_err encode_error (to_allocvec msg)

  unfoldable pub decode : Bytes → Result (CodecError Error) Message
  decode bytes = map_err decode_error (from_bytes bytes)
