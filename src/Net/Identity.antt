-- ===== src/Net/Identity.antt =====
-- crates/net/src/identity.rs: the device's key pair and certificate, and the two files they are kept
-- in. The crate `rcgen` is a parameter.
pub mod Keeping
pub mod Untouched
pub mod Starts
use penguinsync.Base.{
  ◌≡◌, Bytes, Str, str, Bool, ◌&&◌, List, [], ◌∷◌, Option, none, some, if◌then◌else◌,
}
use penguinsync.Base.Result.{Result, ok, err, ◌>>=◌, ok_or, map_err}
use penguinsync.Base.Disk.{
  Disk, Cut, Action, create_dir_all, write, set_owner_only, attempt, read_to_string, exists,
}
use penguinsync.Net.Tls.{Crypto, device_id_from_spki}

abbrev pub cert_file : Str
cert_file = str "identity-cert.pem"

abbrev pub key_file : Str
key_file = str "identity-key.pem"

pub data IdentityError : Type 0 where
  generate_error : Str → IdentityError
  io : IdentityError
  parse : Str → IdentityError

-- What `rcgen` documents: a key pair is read back from its PEM text, and a self-signed certificate
-- carries the public key of the pair that signed it.
pub record Rcgen (crypto : Crypto) : Type 1 where
  pub KeyPair : Type 0
  pub Params : Type 0
  pub from_pem : Str → Result Str KeyPair
  pub serialize_pem : KeyPair → Str
  pub serialize_der : KeyPair → Bytes
  pub public_key_der : KeyPair → Bytes
  pub params_new : List Str → Result Str Params
  pub self_signed : Params → KeyPair → Result Str crypto.Certificate
  pub cert_pem : crypto.Certificate → Str
  pub from_pem-serialize_pem : (k : KeyPair) → from_pem (serialize_pem k) ≡ ok k
  pub spki-self_signed :
      (p : Params) (k : KeyPair) (c : crypto.Certificate)
      → self_signed p k ≡ ok c
      → crypto.subject_public_key_info c ≡ some (public_key_der k)

pub record Identity {crypto : Crypto} (rcgen : Rcgen crypto) : Type 0 where
  pub device_id : Bytes
  pub key_pair : rcgen.KeyPair
  pub cert : crypto.Certificate

module _ {crypto : Crypto} (rcgen : Rcgen crypto) where
  open rcgen use {
    KeyPair, from_pem, serialize_pem, serialize_der, public_key_der, params_new, self_signed,
    cert_pem,
  }

  -- What `generate` and `load` share: the device id and the certificate of a key pair.
  unfoldable pub of_key : KeyPair → Result IdentityError (Identity rcgen)
  unfolding device_id_from_spki
  of_key key_pair =
      let device_id = device_id_from_spki crypto (public_key_der key_pair) in
      map_err generate_error (params_new (str "penguinsync" ∷ [])) >>= λ params.
      map_err generate_error (self_signed params key_pair) >>= λ cert.
      ok (record { device_id = device_id; key_pair = key_pair; cert = cert })

  -- `fresh` is what the generation of a key pair gives.
  unfoldable pub generate : Result Str KeyPair → Result IdentityError (Identity rcgen)
  generate fresh = map_err generate_error fresh >>= of_key

  unfoldable pub load : Disk → Result IdentityError (Identity rcgen)
  load d = ok_or (read_to_string key_file d) io >>= λ key_pem.
      map_err parse (from_pem key_pem) >>= of_key

  abbrev pub saving : Identity rcgen → List Action
  saving identity =
      create_dir_all
      ∷ write key_file (serialize_pem identity.key_pair)
      ∷ set_owner_only key_file
      ∷ write cert_file (cert_pem identity.cert)
      ∷ []

  -- The disk after it, and whether every step succeeded.
  unfoldable pub save : Identity rcgen → Cut → Disk → Disk × Bool
  save identity cut d = attempt cut (saving identity) d

  unfoldable pub load_or_generate :
      Result Str KeyPair → Cut → Disk → Disk × Result IdentityError (Identity rcgen)
  load_or_generate fresh cut d =
      if exists cert_file d && exists key_file d then (d, load d) else elim (generate fresh) [
        | err e ↦ (d, err e)
        | ok identity ↦
            let (d', done) = save identity cut d in (d', if done then ok identity else err io)
      ]

  unfoldable pub cert_der : Identity rcgen → crypto.Certificate
  cert_der identity = identity.cert

  unfoldable pub key_der : Identity rcgen → Bytes
  key_der identity = serialize_der identity.key_pair
