-- ===== src/Net/Tls.antt =====
-- crates/net/src/tls.rs: the pinned device keys, the pairing window, and the certificate check that
-- both directions share. The locks guard single accesses and are left out; the clock is an argument.
pub mod Trust
pub mod Verifier
use penguinsync.Base.{
  ℕ, ◌≡◌, Bytes, Str, Bool, true, false, ◌||◌, List, [], ◌∷◌, Option, none, some, ltb,
  if◌then◌else◌, map, bytes_key,
}
use penguinsync.Base.Map.{Map, lookup, insert, remove}
use penguinsync.Base.Result.{Result, ok, err, ◌>>=◌, ok_or}
use penguinsync.Base.Time.{Instant}
use penguinsync.Protocol.Hex.{short_fingerprint}

pub record TrustStore : Type 0 where
  -- a `HashSet` of device ids
  pub paired : Map Bytes (Unit {0})
  pub pairing_deadline : Option Instant

insert_all : List Bytes → Map Bytes (Unit {0}) → Map Bytes (Unit {0})
insert_all [] set = set
insert_all (id ∷ rest) set = insert_all rest (insert id tt set)

unfoldable pub new : List Bytes → TrustStore
unfolding insert_all
new paired = record { paired = insert_all paired []; pairing_deadline = none }

is_some : {A : Type 0} → Option A → Bool
is_some none = false
is_some (some _) = true

unfoldable pub is_paired : TrustStore → Bytes → Bool
unfolding is_some
is_paired t id = is_some (lookup id t.paired)

unfoldable pub pin : TrustStore → Bytes → TrustStore
pin t id = record t { paired = insert id tt t.paired }

unfoldable pub unpair : TrustStore → Bytes → TrustStore
unpair t id = record t { paired = remove id t.paired }

unfoldable paired_devices : TrustStore → List Bytes
paired_devices t = map (λ e. e.0) t.paired

unfoldable pub open_pairing_window : TrustStore → Instant → TrustStore
open_pairing_window t deadline = record t { pairing_deadline = some deadline }

unfoldable pub close_pairing_window : TrustStore → TrustStore
close_pairing_window t = record t { pairing_deadline = none }

unfoldable pub pairing_open : TrustStore → Instant → Bool
pairing_open t now = elim t.pairing_deadline [ none ↦ false | some deadline ↦ ltb now deadline ]

pub data TlsError : Type 0 where
  malformed_certificate : TlsError
  unpinned_peer : Str → TlsError

-- The certificate parser of the `webpki` crate, which finds the public key's bytes, and SHA-256.
pub record Crypto : Type 1 where
  pub Certificate : Type 0
  pub subject_public_key_info : Certificate → Option Bytes
  pub sha256 : Bytes → Bytes

module _ (crypto : Crypto) where
  open crypto use {Certificate, subject_public_key_info, sha256}

  unfoldable pub device_id_from_spki : Bytes → Bytes
  device_id_from_spki spki_der = sha256 spki_der

  unfoldable pub device_id_of : Certificate → Result TlsError Bytes
  unfolding device_id_from_spki
  device_id_of cert = do
    spki ← ok_or (subject_public_key_info cert) malformed_certificate
    ok (device_id_from_spki spki)

  unfoldable pub check : TrustStore → Certificate → Instant → Result TlsError (Unit {0})
  check trust cert now = do
    id ← device_id_of cert
    if is_paired trust id || pairing_open trust now
        then ok tt
        else err (unpinned_peer (short_fingerprint id))

  unfoldable pub verify_server_cert :
      TrustStore → Certificate → Instant → Result TlsError (Unit {0})
  verify_server_cert trust end_entity now = check trust end_entity now

  unfoldable pub verify_client_cert :
      TrustStore → Certificate → Instant → Result TlsError (Unit {0})
  verify_client_cert trust end_entity now = check trust end_entity now
