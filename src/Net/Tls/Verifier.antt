-- ===== src/Net/Tls/Verifier.antt =====
-- crates/net/src/tls.rs: the verifier that `rustls` asks in both roles. What it does about signatures
-- it leaves to the crypto provider, which is a parameter.
use penguinsync.Base.{ℕ, Bytes, Bool, true, List, []}
use penguinsync.Base.Result.{Result}
use penguinsync.Base.Time.{Instant}
use penguinsync.Net.Tls.{TrustStore, TlsError, Crypto}
use penguinsync.Net.Tls

-- The provider's checks of a signature over a message by a certificate's key, and its schemes.
pub record CryptoProvider (crypto : Crypto) : Type 0 where
  pub verify_tls12_signature : Bytes → crypto.Certificate → Bytes → Result TlsError (Unit {0})
  pub verify_tls13_signature : Bytes → crypto.Certificate → Bytes → Result TlsError (Unit {0})
  pub supported_schemes : List ℕ

pub record PinningVerifier {crypto : Crypto} (provider : CryptoProvider crypto) : Type 0 where
  pub trust : TrustStore

module _ {crypto : Crypto} (provider : CryptoProvider crypto) where
  open crypto use {Certificate}

  unfoldable pub new : TrustStore → PinningVerifier provider
  new trust = record { trust = trust }

  unfoldable pub verify_server_cert :
      PinningVerifier provider → Certificate → Instant → Result TlsError (Unit {0})
  verify_server_cert v end_entity now = Tls.verify_server_cert crypto v.trust end_entity now

  unfoldable pub verify_client_cert :
      PinningVerifier provider → Certificate → Instant → Result TlsError (Unit {0})
  verify_client_cert v end_entity now = Tls.verify_client_cert crypto v.trust end_entity now

  unfoldable pub verify_tls12_signature :
      PinningVerifier provider → Bytes → Certificate → Bytes → Result TlsError (Unit {0})
  verify_tls12_signature v message cert dss = provider.verify_tls12_signature message cert dss

  unfoldable pub verify_tls13_signature :
      PinningVerifier provider → Bytes → Certificate → Bytes → Result TlsError (Unit {0})
  verify_tls13_signature v message cert dss = provider.verify_tls13_signature message cert dss

  unfoldable supported_verify_schemes : PinningVerifier provider → List ℕ
  supported_verify_schemes v = provider.supported_schemes

  abbrev pub offer_client_auth : PinningVerifier provider → Bool
  offer_client_auth v = true

  abbrev pub client_auth_mandatory : PinningVerifier provider → Bool
  client_auth_mandatory v = true

  abbrev root_hint_subjects : PinningVerifier provider → List Bytes
  root_hint_subjects v = []
