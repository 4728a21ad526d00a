-- ===== src/Tests/Crates.antt =====
-- Concrete stand-ins for the crates that are parameters: bytes as streams, and texts that keep the
-- lengths of their parts.
use penguinsync.Base.{
  ℕ, zero, suc, ◌<◌, ◌≤◌, ◌≡◌, refl, ap, Bytes, Str, str, List, [], ◌∷◌, ◌++◌, Option, none, some,
  ite, ◌=?◌, bytes_key, bytes_discrete, length, take, drop, leb, ◌==◌, if◌then◌else◌, arith,
  take-append_length, drop-append_length, All, IsByte, IsArray, replicate, length-replicate,
}
use penguinsync.Base.Result.{Result, ok, err}
use penguinsync.Base.Addr.{v4, v6, SocketAddr, AddrText, printed}
use penguinsync.Protocol.Message.{Message, handshake, ping, pong, clipboard, Postcard}
use penguinsync.Protocol.Qr.{UrlCrate, scheme_name, pair_uri}
use penguinsync.Net.Transport.{Quic}
use penguinsync.Net.Tls.{Crypto}
use penguinsync.Net.Session.{Link}

pub replicate-IsArray : (n b : ℕ) → b < 256 → IsArray n (replicate n b)
replicate-IsArray n b h = (length-replicate n b, bytes n)
  where
    bytes : (n : ℕ) → All IsByte (replicate n b)
    bytes zero = tt
    bytes (suc n) = (h, bytes n)

-- Texts behind their lengths.
abbrev pub packed : Str → Str → Str
packed s rest = length s ∷ s ++ rest

unfoldable pub unpack : Str → Str × Str
unpack [] = ([], [])
unpack (n ∷ rest) = (take n rest, drop n rest)

pub unpack-packed : (s rest : Str) → unpack (packed s rest) ≡ (s, rest)
unfolding unpack
unpack-packed s rest =
    cc (take-append_length (length s) s rest refl, drop-append_length (length s) s rest refl)

-- A codec of pings, pongs and plain handshakes only.
unfoldable pub to_vec : Message → Result (Unit {0}) Bytes
to_vec (ping p) = ok (0 ∷ p.nonce ∷ [])
to_vec (pong p) = ok (1 ∷ p.nonce ∷ [])
to_vec (handshake h) = elim h.capabilities [
  | [] ↦ elim h.pairing_token [
    | none ↦ ok (2 ∷ h.version ∷ packed h.device_id h.name)
    | some _ ↦ err tt
  ]
  | _ ∷ _ ↦ err tt
]
to_vec _ = err tt

unfoldable pub from_vec : Bytes → Result (Unit {0}) Message
from_vec (tag ∷ n ∷ rest) =
    if tag == 0
    then ok (ping (record { nonce = n }))
    else if tag == 1
    then ok (pong (record { nonce = n }))
    else ok (
        handshake (record {
          version = n;
          device_id = (unpack rest).0;
          name = (unpack rest).1;
          capabilities = [];
          pairing_token = none;
        }))
from_vec _ = err tt

pub from_vec-to_vec : (m : Message) (bs : Bytes) → to_vec m ≡ ok bs → from_vec bs ≡ ok m
unfolding to_vec from_vec
from_vec-to_vec (handshake x) bs h = ground (arith, unpack-packed x.device_id x.name)
from_vec-to_vec (ping x) bs h = ground arith
from_vec-to_vec (pong x) bs h = ground arith
from_vec-to_vec (clipboard x) bs h = ground arith

abbrev pub pings : Postcard
pings = record {
  Error = Unit;
  to_allocvec = to_vec;
  from_bytes = from_vec;
  from_bytes-to_allocvec = from_vec-to_vec;
}

unfoldable pub read_bytes : Bytes → ℕ → Result (Unit {0}) (Bytes × Bytes)
read_bytes r n = if leb n (length r) then ok (take n r, drop n r) else err tt

abbrev sent_ok : Bytes → Result (Unit {0}) Bytes
sent_ok s = ok s

pub append_sent : (s s' b : Bytes) → sent_ok (s ++ b) ≡ sent_ok s' → s' ≡ s ++ b
append_sent s s' b h = cc

pub read_bytes-long : (r : Bytes) (n : ℕ) → n ≤ length r → read_bytes r n ≡ ok (take n r, drop n r)
unfolding read_bytes
read_bytes-long r n h = ground arith

pub read_bytes-short : (r : Bytes) (n : ℕ) → length r < n → read_bytes r n ≡ err tt
unfolding read_bytes
read_bytes-short r n h = ground arith

abbrev pub bytes_quic : Quic
bytes_quic = record {
  SendStream = Bytes;
  RecvStream = Bytes;
  WriteError = Unit;
  ReadError = Unit;
  write_all = λ s b. ok (s ++ b);
  read_exact = read_bytes;
  abandon = λ r n. drop n r;
  sent = λ s. s;
  incoming = λ r. r;
  sent-write_all = append_sent;
  read_exact-incoming = λ r n h. (drop n r, read_bytes-long r n h, refl);
  read_exact-short = λ r n h. (tt, read_bytes-short r n h);
  incoming-abandon = λ r n. refl;
}

abbrev pub plain_link : Link
plain_link = record {
  postcard = pings;
  quic = bytes_quic;
  framing_text = λ e. str "framing";
  read_text = λ e. str "read";
}

-- A certificate is its key's bytes.
abbrev pub plain_crypto : Crypto
plain_crypto = record {
  Certificate = Bytes;
  subject_public_key_info = λ c. some c;
  sha256 = λ bs. bs;
}

unfoldable pub addr_to_str : SocketAddr → Str
addr_to_str a = elim a.ip [
  | v4 n ↦ 4 ∷ n ∷ a.port ∷ 0 ∷ []
  | v6 n ↦ 6 ∷ n ∷ a.port ∷ a.scope_id ∷ []
]

unfoldable pub addr_from_str : Str → Option SocketAddr
addr_from_str (tag ∷ n ∷ p ∷ s ∷ []) =
    let ip = if tag == 4 then v4 n else v6 n in
    some (record { ip = ip; port = p; flowinfo = 0; scope_id = s })
addr_from_str _ = none

pub addr_from_str-to_str : (a : SocketAddr) → addr_from_str (addr_to_str a) ≡ some (printed a)
unfolding printed addr_to_str addr_from_str
addr_from_str-to_str a = ground arith

abbrev pub plain_addrs : AddrText
plain_addrs = record {
  to_str = addr_to_str;
  parse = addr_from_str;
  parse-to_str = addr_from_str-to_str;
}

unfoldable pub pack_pairs : List (Str × Str) → Str
pack_pairs [] = []
pack_pairs ((k, v) ∷ rest) = packed k (packed v (pack_pairs rest))

unfoldable pub unpack_pairs : ℕ → Str → List (Str × Str)
unpack_pairs zero s = []
unpack_pairs (suc n) s =
    let (k, s1) = unpack s in let (v, s2) = unpack s1 in (k, v) ∷ unpack_pairs n s2

unpack_pairs-pack_pairs : (ps : List (Str × Str)) → unpack_pairs (length ps) (pack_pairs ps) ≡ ps
unfolding unpack_pairs pack_pairs
unpack_pairs-pack_pairs [] = refl
unpack_pairs-pack_pairs ((k, v) ∷ rest) =
    rw (unpack-packed k (packed v (pack_pairs rest)))
      (rw (unpack-packed v (pack_pairs rest)) (rw (unpack_pairs-pack_pairs rest) refl))

-- A URL is its scheme and its query; its text starts with a number that is no byte.
unfoldable pub url_to_str : Str × List (Str × Str) → Str
url_to_str (scheme, pairs) = 1000 ∷ length pairs ∷ packed scheme (pack_pairs pairs)

unfoldable pub url_from_str : Str → Option (Str × List (Str × Str))
url_from_str [] = none
url_from_str (tag ∷ []) = none
url_from_str (tag ∷ n ∷ rest) =
    if tag == 1000
    then some ((unpack rest).0, unpack_pairs n (unpack rest).1)
    else ite (tag ∷ n ∷ rest =? pair_uri) (some (scheme_name, [])) none

pub url_from_str-to_str : (u : Str × List (Str × Str)) → url_from_str (url_to_str u) ≡ some u
unfolding url_from_str url_to_str
url_from_str-to_str (scheme, pairs) =
    rw (unpack-packed scheme (pack_pairs pairs)) (rw (unpack_pairs-pack_pairs pairs) refl)

pub url_from_str-pair_uri : url_from_str pair_uri ≡ some (scheme_name, [])
unfolding url_from_str bytes_discrete
url_from_str-pair_uri = refl

pub pair_uri-parsed :
    (u : Str × List (Str × Str)) → url_from_str pair_uri ≡ some u → u ≡ (scheme_name, [])
pair_uri-parsed u h = cc (h, url_from_str-pair_uri)

abbrev pub plain_url : UrlCrate
plain_url = record {
  Url = Str × List (Str × Str);
  parse = url_from_str;
  scheme = λ u. u.0;
  query_pairs = λ u. u.1;
  append_pair = λ u k v. (u.0, u.1 ++ (k, v) ∷ []);
  into_string = url_to_str;
  parse-pair_uri = ((scheme_name, []), url_from_str-pair_uri);
  scheme-pair_uri = λ u h. ap (λ v. v.0) (pair_uri-parsed u h);
  query_pairs-pair_uri = λ u h. ap (λ v. v.1) (pair_uri-parsed u h);
  scheme-append_pair = λ u k v. refl;
  query_pairs-append_pair = λ u k v. refl;
  parse-into_string = url_from_str-to_str;
}
