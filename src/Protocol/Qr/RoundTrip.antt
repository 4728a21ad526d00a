-- ===== src/Protocol/Qr/RoundTrip.antt =====
-- A payload that went into a QR code comes out of it, and what a parsed payload looks like.
use mathlib.Core.List.{append_assoc, append-nil}
use penguinsync.Base.{
  ℕ, ◌≤◌, ◌≡◌, refl, sym, ap, ◌∙◌, Bytes, Str, str, List, [], ◌∷◌, ◌++◌, map, some, bytes_discrete,
  IsArray, if_pos,
}
use penguinsync.Base.Result.{ok, ◌>>=◌}
use penguinsync.Base.Addr.{SocketAddr, AddrText, printed}
use penguinsync.Base.Decimal.{u16_to_string, u16_max, parse_u16-to_string}
use penguinsync.Protocol.Hex.{to_hex, hex_encode, device_id_len, token_len}
use penguinsync.Protocol.Hex.RoundTrip.{from_hex-to_hex, hex_decode_token-hex_encode}
use penguinsync.Protocol.Qr.{
  UrlCrate, QrPayload, Fields, finish, no_fields, append_addrs, append_fields, encode_qr_uri,
  read_pair, read_pairs, decode_qr_uri, scheme_name, pair_uri,
}

-- The sizes that the Rust types fix.
pub record IsPayload (p : QrPayload) : Type 0 where
  pub version_u16 : p.version ≤ u16_max
  pub id_array : IsArray device_id_len p.device_id
  pub token_array : IsArray token_len p.token

-- The payload with its addresses as their text keeps them.
abbrev pub as_printed : QrPayload → QrPayload
as_printed p = record p { addrs = map printed p.addrs }

module _ (url : UrlCrate) (text : AddrText) where
  open url use {Url, scheme, query_pairs, append_pair, into_string}

  addr_pairs : List SocketAddr → List (Str × Str)
  addr_pairs = map (λ a. (str "addr", text.to_str a))

  query_pairs-append_addrs :
      (u : Url) (addrs : List SocketAddr)
      → query_pairs (append_addrs url text u addrs) ≡ query_pairs u ++ addr_pairs addrs
  unfolding append_addrs addr_pairs
  query_pairs-append_addrs u [] = sym (append-nil (query_pairs u))
  query_pairs-append_addrs u (a ∷ rest) =
      query_pairs-append_addrs (append_pair u (str "addr") (text.to_str a)) rest
      ∙ rw (url.query_pairs-append_pair u (str "addr") (text.to_str a))
          (append_assoc (query_pairs u) _ _)

  scheme-append_addrs :
      (u : Url) (addrs : List SocketAddr) → scheme (append_addrs url text u addrs) ≡ scheme u
  unfolding append_addrs
  scheme-append_addrs u [] = refl
  scheme-append_addrs u (a ∷ rest) =
      scheme-append_addrs (append_pair u (str "addr") (text.to_str a)) rest
      ∙ url.scheme-append_pair u (str "addr") (text.to_str a)

  scheme-append_fields : (u : Url) (p : QrPayload) → scheme (append_fields url text u p) ≡ scheme u
  unfolding append_fields
  scheme-append_fields u p = simp (url.scheme-append_pair, scheme-append_addrs)

  payload_pairs : QrPayload → List (Str × Str)
  payload_pairs p =
      (str "v", u16_to_string p.version)
      ∷ (str "id", to_hex p.device_id)
      ∷ (str "name", p.name)
      ∷ (addr_pairs p.addrs ++ (str "token", hex_encode p.token) ∷ [])

  query_pairs-append_fields :
      (u : Url) (p : QrPayload)
      → query_pairs u ≡ []
      → query_pairs (append_fields url text u p) ≡ payload_pairs p
  unfolding append_fields payload_pairs
  query_pairs-append_fields u p e = simp (url.query_pairs-append_pair, query_pairs-append_addrs, e)

  read_addr :
      (f : Fields) (a : SocketAddr)
      → read_pair url text f (str "addr") (text.to_str a)
        ≡ ok (record f { addrs = f.addrs ++ printed a ∷ [] })
  unfolding read_pair bytes_discrete
  read_addr f a = rw (text.parse-to_str a)

  read_pairs-addrs :
      (f : Fields) (addrs : List SocketAddr) (rest : List (Str × Str))
      → read_pairs url text f (addr_pairs addrs ++ rest)
        ≡ read_pairs url text (record f { addrs = f.addrs ++ map printed addrs }) rest
  unfolding read_pairs addr_pairs
  read_pairs-addrs f [] rest = simp append-nil
  read_pairs-addrs f (a ∷ more) rest = rw (read_addr f a) (
      read_pairs-addrs (record f { addrs = f.addrs ++ printed a ∷ [] }) more rest
      ∙ ap (λ (l : List SocketAddr). read_pairs url text (record f { addrs = l }) rest)
          (append_assoc f.addrs (printed a ∷ []) (map printed more)))

  read_version :
      (f : Fields) (n : ℕ)
      → n ≤ u16_max
      → read_pair url text f (str "v") (u16_to_string n) ≡ ok (record f { version = some n })
  unfolding read_pair bytes_discrete
  read_version f n h = rw (parse_u16-to_string n h)

  read_id :
      (f : Fields) (id : Bytes)
      → IsArray device_id_len id
      → read_pair url text f (str "id") (to_hex id) ≡ ok (record f { device_id = some id })
  unfolding read_pair bytes_discrete
  read_id f id h = rw (from_hex-to_hex id h)

  read_name :
      (f : Fields) (name : Str)
      → read_pair url text f (str "name") name ≡ ok (record f { name = some name })
  unfolding read_pair bytes_discrete
  read_name f name = refl

  read_token :
      (f : Fields) (token : Bytes)
      → IsArray token_len token
      → read_pair url text f (str "token") (hex_encode token) ≡ ok (record f { token = some token })
  unfolding read_pair bytes_discrete
  read_token f token h = rw (hex_decode_token-hex_encode token h)

  read_pairs-payload :
      (p : QrPayload)
      → IsPayload p
      → (read_pairs url text no_fields (payload_pairs p) >>= finish) ≡ ok (as_printed p)
  unfolding read_pairs payload_pairs
  read_pairs-payload p h = rw (read_version no_fields p.version h.version_u16) (
      rw (read_id _ p.device_id h.id_array) (
        rw (read_name _ p.name) (
          rw (read_pairs-addrs _ p.addrs ((str "token", hex_encode p.token) ∷ []))
            (rw (read_token _ p.token h.token_array) (unfold finish in refl)))))

  -- Every payload of the right sizes is encoded, without a panic, to a URI that is parsed back to it.
  -- Only the flow of an IPv6 address is lost, which the text of an address does not have.
  pub decode-encode_qr_uri :
      (p : QrPayload)
      → IsPayload p
      → (uri : Str) × (encode_qr_uri url text p ≡ some uri)
        × (decode_qr_uri url text uri ≡ ok (as_printed p))
  unfolding encode_qr_uri decode_qr_uri
  decode-encode_qr_uri p h = (into_string full, rw parsed, decoded)
    where
      base : Url
      base = url.parse-pair_uri.0

      parsed : url.parse pair_uri ≡ some base
      parsed = url.parse-pair_uri.1

      full : Url
      full = append_fields url text base p

      good_scheme : scheme full ≡ scheme_name
      good_scheme = scheme-append_fields base p ∙ url.scheme-pair_uri base parsed

      pairs : query_pairs full ≡ payload_pairs p
      pairs = query_pairs-append_fields base p (url.query_pairs-pair_uri base parsed)

      decoded : decode_qr_uri url text (into_string full) ≡ ok (as_printed p)
      decoded =
          rw (url.parse-into_string full)
            (rw (if_pos _ good_scheme) (rw pairs (read_pairs-payload p h)))
