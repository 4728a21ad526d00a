-- ===== src/Protocol/Qr.antt =====
-- crates/protocol/src/pairing.rs: the URI of the pairing QR code. The `url` crate and the text form of
-- socket addresses are parameters.
pub mod RoundTrip
use penguinsync.Base.{
  ℕ, ◌≡◌, Bytes, Str, str, List, [], ◌∷◌, ◌++◌, Option, none, some, ite, ◌=?◌, bytes_key,
  bytes_discrete,
}
use penguinsync.Base.Text.{◌>>=◌ as option_bind}
use penguinsync.Base.Result.{Result, ok, err, ◌>>=◌, ok_or}
use penguinsync.Base.Addr.{SocketAddr, AddrText}
use penguinsync.Base.Decimal.{u16_to_string, parse_u16}
use penguinsync.Protocol.Hex.{to_hex, from_hex, hex_encode, hex_decode_token}

abbrev pub scheme_name : Str
scheme_name = str "penguinsync"

abbrev pub pair_uri : Str
pair_uri = str "penguinsync://pair"

-- The `url` crate, as far as the source uses it. A URL that is built by appending query pairs has
-- those pairs in order and keeps its scheme, and its text is parsed back; the constant URI of the
-- source is well formed, with its scheme and no query.
pub record UrlCrate : Type 1 where
  pub Url : Type 0
  pub parse : Str → Option Url
  pub scheme : Url → Str
  pub query_pairs : Url → List (Str × Str)
  pub append_pair : Url → Str → Str → Url
  pub into_string : Url → Str
  pub parse-pair_uri : (u : Url) × (parse pair_uri ≡ some u)
  pub scheme-pair_uri : (u : Url) → parse pair_uri ≡ some u → scheme u ≡ scheme_name
  pub query_pairs-pair_uri : (u : Url) → parse pair_uri ≡ some u → query_pairs u ≡ []
  pub scheme-append_pair : (u : Url) (k v : Str) → scheme (append_pair u k v) ≡ scheme u
  pub query_pairs-append_pair :
      (u : Url) (k v : Str) → query_pairs (append_pair u k v) ≡ query_pairs u ++ (k, v) ∷ []
  pub parse-into_string : (u : Url) → parse (into_string u) ≡ some u

pub record QrPayload : Type 0 where
  pub version : ℕ
  pub device_id : Bytes
  pub name : Str
  pub addrs : List SocketAddr
  pub token : Bytes

pub data QrParseError : Type 0 where
  wrong_scheme : QrParseError
  missing_field malformed_field : Str → QrParseError

-- The local variables of the parsing loop.
pub record Fields : Type 0 where
  pub version : Option ℕ
  pub device_id : Option Bytes
  pub name : Option Str
  pub addrs : List SocketAddr
  pub token : Option Bytes

abbrev no_fields : Fields
no_fields = record { version = none; device_id = none; name = none; addrs = []; token = none }

unfoldable pub finish : Fields → Result QrParseError QrPayload
finish f = do
  version ← ok_or f.version (missing_field (str "v"))
  device_id ← ok_or f.device_id (missing_field (str "id"))
  name ← ok_or f.name (missing_field (str "name"))
  token ← ok_or f.token (missing_field (str "token"))
  ok (record {
    version = version;
    device_id = device_id;
    name = name;
    addrs = f.addrs;
    token = token;
  })

module _ (url : UrlCrate) (text : AddrText) where
  open url use {Url, parse, scheme, query_pairs, append_pair, into_string}

  append_addrs : Url → List SocketAddr → Url
  append_addrs u [] = u
  append_addrs u (a ∷ rest) = append_addrs (append_pair u (str "addr") (text.to_str a)) rest

  append_fields : Url → QrPayload → Url
  append_fields u payload =
      let u1 = append_pair u (str "v") (u16_to_string payload.version) in
      let u2 = append_pair u1 (str "id") (to_hex payload.device_id) in
      let u3 = append_pair u2 (str "name") payload.name in
      append_pair (append_addrs u3 payload.addrs) (str "token") (hex_encode payload.token)

  -- `none` is the panic of `expect`.
  unfoldable pub encode_qr_uri : QrPayload → Option Str
  unfolding append_fields append_addrs
  encode_qr_uri payload =
      option_bind (parse pair_uri) (λ u. some (into_string (append_fields u payload)))

  unfoldable pub read_pair : Fields → Str → Str → Result QrParseError Fields
  read_pair f key value =
      ite (key =? str "v")
        (do
          version ← ok_or (parse_u16 value) (malformed_field (str "v"))
          ok (record f { version = some version }))
        (ite (key =? str "id")
          (do
            id ← ok_or (from_hex value) (malformed_field (str "id"))
            ok (record f { device_id = some id }))
          (ite (key =? str "name") (ok (record f { name = some value })) (
            ite (key =? str "addr")
              (do
                addr ← ok_or (text.parse value) (malformed_field (str "addr"))
                ok (record f { addrs = f.addrs ++ addr ∷ [] }))
              (ite (key =? str "token")
                (do
                  token ← ok_or (hex_decode_token value) (malformed_field (str "token"))
                  ok (record f { token = some token }))
                (ok f)))))

  unfoldable pub read_pairs : Fields → List (Str × Str) → Result QrParseError Fields
  read_pairs f [] = ok f
  read_pairs f ((key, value) ∷ rest) = do f' ← read_pair f key value; read_pairs f' rest

  unfoldable pub decode_qr_uri : Str → Result QrParseError QrPayload
  decode_qr_uri uri = do
    u ← ok_or (parse uri) wrong_scheme
    ite (scheme u =? scheme_name) (do f ← read_pairs no_fields (query_pairs u); finish f)
        (err wrong_scheme)
