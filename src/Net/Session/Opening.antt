-- ===== src/Net/Session/Opening.antt =====
-- crates/net/src/session.rs: how a session comes up on a connection, on either side; and
-- crates/net/src/reconnect.rs: one attempt of the dialer to get one.
use penguinsync.Base.{ℕ, Bytes, Str, Option, none}
use penguinsync.Base.Result.{Result, ok, ◌>>=◌, map_err}
use penguinsync.Base.Time.{Instant, Duration}
use penguinsync.Protocol.Connection.{LocalIdentity}
use penguinsync.Net.Session.{Link, Drive, start}

pub data SessionError : Type 0 where
  open_error : Str → SessionError
  write_error : Str → SessionError

pub data ConnectOnceError : Type 0 where
  connect : Str → ConnectOnceError
  connection : Str → ConnectOnceError
  session : SessionError → ConnectOnceError

module _ (link : Link) where
  open link use {quic}
  open quic use {SendStream, RecvStream}

  -- What `open_bi` and `accept_bi` give.
  abbrev Opened : Type 0
  Opened = Result Str (SendStream × RecvStream)

  unfoldable pub open_session :
      Opened
      → LocalIdentity
      → Duration
      → Option Bytes
      → (nonce : ℕ) (clock : Instant) → Result SessionError (Drive link)
  open_session opened local interval token nonce clock = map_err open_error opened >>= λ streams.
      ok (start link local interval token streams.0 streams.1 nonce clock)

  unfoldable pub accept :
      Opened
      → LocalIdentity
      → Duration
      → (nonce : ℕ) (clock : Instant) → Result SessionError (Drive link)
  accept opened local interval nonce clock = map_err open_error opened >>= λ streams.
      ok (start link local interval none streams.0 streams.1 nonce clock)

  -- What `Endpoint::connect` gives, and then the QUIC handshake.
  unfoldable connect_once :
      Result Str (Unit {0})
      → Result Str Opened
      → LocalIdentity
      → Duration
      → Option Bytes
      → (nonce : ℕ) (clock : Instant) → Result ConnectOnceError (Drive link)
  connect_once connecting handshake local interval token nonce clock =
      map_err connect connecting >>= λ _. map_err connection handshake >>= λ opened.
      map_err session (open_session opened local interval token nonce clock)
