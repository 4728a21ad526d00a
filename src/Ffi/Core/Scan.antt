-- ===== src/Ffi/Core/Scan.antt =====
-- Pairing from end to end: the daemon's QR code, the app that scans it, and the token's way back.
use penguinsync.Base.{
  ◌<◌, ◌≡◌, refl, Bytes, Str, Bool, true, false, List, [], ◌∷◌, Option, none, some, IsArray, arith,
  ap, map, not, if◌then◌else◌,
}
use penguinsync.Base.Result.{ok}
use penguinsync.Base.Time.{Instant, duration_since}
use penguinsync.Base.Addr.{IpAddr, SocketAddr, AddrText, printed, is_unspecified, octets}
use penguinsync.Base.Addr
use penguinsync.Protocol.Hex.{device_id_len, token_len}
use penguinsync.Protocol.Message.{protocol_version}
use penguinsync.Protocol.Pairing.{token_ttl, redeem, issue}
use penguinsync.Protocol.Qr.{UrlCrate, QrPayload, decode_qr_uri}
use penguinsync.Protocol.Qr.RoundTrip.{decode-encode_qr_uri, as_printed}
use penguinsync.Net.Tls.{pin}
use penguinsync.Daemon.Shared.{Shared}
use penguinsync.Daemon.NetAddrs.{candidate_addrs}
use penguinsync.Daemon.Dbus.{start_pairing, open_pairing, pairing_payload}
use penguinsync.Daemon.Orchestrator.{redeem_current}
use penguinsync.Ffi.Core.{PenguinSyncCore, pair, pair_with}

candidate_addrs-some :
    (listen : SocketAddr) (guess : Option IpAddr)
    → (addr : SocketAddr) × (rest : List SocketAddr) × (candidate_addrs listen guess ≡ addr ∷ rest)
unfolding candidate_addrs
candidate_addrs-some listen guess = by_wildcard (not (is_unspecified listen.ip)) guess
  where
    by_wildcard :
        (b : Bool) (guess : Option IpAddr)
        → (addr : SocketAddr) × (rest : List SocketAddr) × ((if b then listen ∷ [] else elim guess [
          | none ↦ Addr.new (octets 127 0 0 1) listen.port ∷ []
          | some ip ↦ Addr.new ip listen.port ∷ Addr.new (octets 127 0 0 1) listen.port ∷ []
        ])
            ≡ addr ∷ rest)
    by_wildcard true guess = (_, _, refl)
    by_wildcard false none = (_, _, refl)
    by_wildcard false (some ip) = (_, _, refl)

module _ (url : UrlCrate) (text : AddrText) where
  pair-decoded :
      (core : PenguinSyncCore) (payload : QrPayload) (uri : Str) (addr : SocketAddr)
      (rest : List SocketAddr)
      → decode_qr_uri url text uri ≡ ok payload
      → payload.version ≡ protocol_version
      → payload.addrs ≡ addr ∷ rest
      → pair url text core uri (ok tt) ≡ (
        record core { trust = pin core.trust payload.device_id },
        ok (record {
          addr = addr;
          token = payload.token;
          device_id = payload.device_id;
          name = payload.name;
        }),
      )
  unfolding pair pair_with
  pair-decoded core payload uri addr rest h hv ha = ground arith

  -- The URI that the daemon's `start_pairing` returns is one that the app accepts: scanning it pins
  -- the daemon's device id and dials the first of the daemon's candidate addresses, as its text keeps
  -- it, and none of the others, with the token, and the daemon redeems that token for whoever presents
  -- it within its lifetime.
  pub pair-start_pairing :
      (s : Shared) (core : PenguinSyncCore) (random : Bytes) (now later : Instant)
      (guess : Option IpAddr)
      → IsArray device_id_len s.identity
      → IsArray token_len random
      → duration_since later now < token_ttl
      → let (s', shown, fingerprint) =
          start_pairing url text s random now (candidate_addrs s.listen_addr guess) in
        (uri : Str) × (addr : SocketAddr) × (rest : List SocketAddr) × (shown ≡ some uri)
        × (candidate_addrs s.listen_addr guess ≡ addr ∷ rest)
        × (pair url text core uri (ok tt) ≡ (
          record core { trust = pin core.trust s.identity },
          ok (record {
            addr = printed addr;
            token = random;
            device_id = s.identity;
            name = s.name;
          }),
        ))
        × ((redeem_current s'.current_token random later).1 ≡ true)
  unfolding start_pairing open_pairing pairing_payload redeem_current redeem issue
  pair-start_pairing s core random now later guess hid ht hl =
      let payload = pairing_payload s random (candidate_addrs s.listen_addr guess) in
      let (uri, shown, decoded) =
        decode-encode_qr_uri url text payload
          (record { version_u16 = omega arith; id_array = hid; token_array = ht }) in
      let (addr, rest, first) = candidate_addrs-some s.listen_addr guess in
      (
        uri,
        addr,
        rest,
        shown,
        first,
        pair-decoded core (as_printed payload) uri (printed addr) (map printed rest) decoded refl
            (ap (map printed) first),
        ground arith,
      )
