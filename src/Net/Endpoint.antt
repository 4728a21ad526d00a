-- ===== src/Net/Endpoint.antt =====
-- crates/net/src/endpoint.rs: the TLS configurations of both roles and the two kinds of endpoint. What
-- `rustls` and `quinn` answer when they are given a configuration or an address is an argument.
pub mod Mutual
use penguinsync.Base.{ℕ, Bytes, Str, str, List, [], ◌∷◌, Option, none, some}
use penguinsync.Base.Result.{Result, ok, err, ◌>>=◌, map_err}
use penguinsync.Base.Addr.{SocketAddr, octets}
use penguinsync.Base.Addr
use penguinsync.Net.Tls.{TrustStore, Crypto}
use penguinsync.Net.Tls.Verifier.{CryptoProvider, PinningVerifier, new}
use penguinsync.Net.Identity.{Rcgen, Identity, cert_der, key_der}

abbrev pub alpn : Bytes
alpn = str "penguinsync/0"

pub data EndpointError : Type 0 where
  tls : Str → EndpointError
  no_initial_cipher_suite : Str → EndpointError
  io : Str → EndpointError

pub data Version : Type 0 where
  tls12 tls13 : Version

-- What a configuration says: the versions offered, who checks the peer's certificate, the
-- certificates and the key shown to the peer, and the protocols.
pub record TlsConfig {crypto : Crypto} (provider : CryptoProvider crypto) : Type 0 where
  pub versions : List Version
  pub verifier : PinningVerifier provider
  pub cert_chain : List crypto.Certificate
  pub key : Bytes
  pub alpn_protocols : List Bytes

-- The answers: to the certificate and the key in each role, to the cipher suites in each role, and to
-- an address to bind, which gives the address that was bound.
pub record Answers : Type 0 where
  pub with_client_auth_cert : Result Str (Unit {0})
  pub with_single_cert : Result Str (Unit {0})
  pub quic_client : Result Str (Unit {0})
  pub quic_server : Result Str (Unit {0})
  pub bind : SocketAddr → Result Str SocketAddr

pub record Endpoint {crypto : Crypto} (provider : CryptoProvider crypto) : Type 0 where
  pub bound : SocketAddr
  pub server : Option (TlsConfig provider)
  pub default_client : Option (TlsConfig provider)

module _ {crypto : Crypto} (rcgen : Rcgen crypto) (provider : CryptoProvider crypto) where
  configured : Identity rcgen → TrustStore → TlsConfig provider
  configured identity trust = record {
    versions = tls13 ∷ [];
    verifier = new provider trust;
    cert_chain = cert_der rcgen identity ∷ [];
    key = key_der rcgen identity;
    alpn_protocols = alpn ∷ [];
  }

  unfoldable pub client_config :
      Answers → Identity rcgen → TrustStore → Result EndpointError (TlsConfig provider)
  unfolding configured
  client_config answers identity trust = map_err tls answers.with_client_auth_cert >>= λ auth.
      map_err no_initial_cipher_suite answers.quic_client >>= λ quic. ok (configured identity trust)

  unfoldable pub server_config :
      Answers → Identity rcgen → TrustStore → Result EndpointError (TlsConfig provider)
  unfolding configured
  server_config answers identity trust = map_err tls answers.with_single_cert >>= λ auth.
      map_err no_initial_cipher_suite answers.quic_server >>= λ quic. ok (configured identity trust)

  unfoldable pub listening :
      Answers → Identity rcgen → TrustStore → SocketAddr → Result EndpointError (Endpoint provider)
  listening answers identity trust listen_addr =
      server_config answers identity trust >>= λ server_cfg.
      map_err io (answers.bind listen_addr) >>= λ bound.
      client_config answers identity trust >>= λ client_cfg.
      ok (record { bound = bound; server = some server_cfg; default_client = some client_cfg })

  unfoldable pub dialing :
      Answers → Identity rcgen → TrustStore → Result EndpointError (Endpoint provider)
  dialing answers identity trust =
      map_err io (answers.bind (Addr.new (octets 0 0 0 0) 0)) >>= λ bound.
      client_config answers identity trust >>= λ client_cfg.
      ok (record { bound = bound; server = none; default_client = some client_cfg })
