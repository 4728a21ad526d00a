-- ===== src/Net/Endpoint/Mutual.antt =====
-- Two endpoints that meet: who has to trust whom.
use penguinsync.Base.{
  ◌≡◌, ◌↔◌, ◌⊎◌, inl, inr, refl, subst, Bytes, Bool, true, false, List, [], ◌∷◌, some, arith,
}
use penguinsync.Base.Result.{ok, Result-cases}
use penguinsync.Base.Addr.{SocketAddr, octets}
use penguinsync.Base.Addr
use penguinsync.Base.Time.{Instant}
use penguinsync.Net.Tls.{TrustStore, Crypto, is_paired, device_id_of}
use penguinsync.Net.Tls.Trust.{IsOpen, verify_iff}
use penguinsync.Net.Tls.Verifier.{
  CryptoProvider, new, verify_server_cert, verify_client_cert, verify_tls13_signature,
  offer_client_auth, client_auth_mandatory,
}
use penguinsync.Net.Identity.{Rcgen, Identity, cert_der, of_key}
use penguinsync.Net.Identity.Keeping.{of_key_lem}
use penguinsync.Net.Endpoint.{
  TlsConfig, Endpoint, Answers, client_config, server_config, listening, dialing, configured,
}

module _ {crypto : Crypto} (rcgen : Rcgen crypto) (provider : CryptoProvider crypto) where
  open rcgen use {KeyPair}

  -- A version and a protocol of one side that the other has too.
  abbrev IsShared : {A : Type 0} → List A → List A → Type 0
  IsShared (a ∷ []) (b ∷ []) = a ≡ b
  IsShared _ _ = ⊥

  -- The single certificate shown.
  abbrev Shows : TlsConfig provider → (crypto.Certificate → Type 0) → Type 0
  Shows config P = elim config.cert_chain [ [] ↦ ⊥ | cert ∷ _ ↦ P cert ]

  -- What each side has signed in a handshake, and its signature.
  pub record Signed : Type 0 where
    pub server_message : Bytes
    pub server_signature : Bytes
    pub client_message : Bytes
    pub client_signature : Bytes

  -- What `rustls` makes of the client's certificates, by the server's verifier: it asks for none where
  -- that offers no authentication, and goes on without one where it is not mandatory.
  abbrev IsAuthenticated :
      (offered mandatory : Bool) → List crypto.Certificate → (crypto.Certificate → Type 0) → Type 0
  IsAuthenticated false mandatory chain P = Unit
  IsAuthenticated true mandatory [] P = mandatory ≡ false
  IsAuthenticated true mandatory (cert ∷ _) P = P cert

  -- When a TLS 1.3 handshake of two configurations succeeds: they have a version and a protocol in
  -- common, the client's verifier lets the server's certificate through and its signature, and the
  -- server's verifier those of the client, if it asks for them.
  unfoldable pub Accepts :
      (client server : TlsConfig provider) → Signed → Instant → Instant → Type 0
  Accepts client server signed now now' =
      IsShared client.versions server.versions
      × IsShared client.alpn_protocols server.alpn_protocols
      × Shows server (λ cert.
        (verify_server_cert provider client.verifier cert now ≡ ok tt)
        × (verify_tls13_signature provider client.verifier signed.server_message cert
              signed.server_signature
            ≡ ok tt))
      × IsAuthenticated (offer_client_auth provider server.verifier)
          (client_auth_mandatory provider server.verifier) client.cert_chain
          (λ cert.
            (verify_client_cert provider server.verifier cert now' ≡ ok tt)
            × (verify_tls13_signature provider server.verifier signed.client_message cert
                  signed.client_signature
                ≡ ok tt))

  -- This trust store lets the device in: it has pinned it, or its pairing window is open.
  abbrev pub Admits : TrustStore → Bytes → Instant → Type 0
  Admits t id now = (is_paired t id ≡ true) ⊎ IsOpen t.pairing_deadline now

  listening-configured :
      (answers : Answers) (identity : Identity rcgen) (t : TrustStore) (addr : SocketAddr)
      (e : Endpoint provider)
      → listening rcgen provider answers identity t addr ≡ ok e
      → e.server ≡ some (configured rcgen provider identity t)
  unfolding listening server_config client_config
  listening-configured answers identity t addr e h = elim (Result-cases answers.with_single_cert) [
    | inl (x, bad) ↦ ground arith
    | inr (u, cert) ↦ elim (Result-cases answers.quic_server) [
      | inl (x, bad) ↦ ground arith
      | inr (v, suite) ↦ elim (Result-cases (answers.bind addr)) [
        | inl (x, bad) ↦ ground arith
        | inr (bound, is_bound) ↦ elim (Result-cases answers.with_client_auth_cert) [
          | inl (x, bad) ↦ ground arith
          | inr (w, auth) ↦ elim (Result-cases answers.quic_client) [
            | inl (x, bad) ↦ ground arith
            | inr (z, fine) ↦ ground arith
          ]
        ]
      ]
    ]
  ]

  dialing-configured :
      (answers : Answers) (identity : Identity rcgen) (t : TrustStore) (e : Endpoint provider)
      → dialing rcgen provider answers identity t ≡ ok e
      → e.default_client ≡ some (configured rcgen provider identity t)
  unfolding dialing client_config
  dialing-configured answers identity t e h =
      elim (Result-cases (answers.bind (Addr.new (octets 0 0 0 0) 0))) [
        | inl (x, bad) ↦ ground arith
        | inr (bound, is_bound) ↦ elim (Result-cases answers.with_client_auth_cert) [
          | inl (x, bad) ↦ ground arith
          | inr (w, auth) ↦ elim (Result-cases answers.quic_client) [
            | inl (x, bad) ↦ ground arith
            | inr (z, fine) ↦ ground arith
          ]
        ]
      ]

  -- A verifier lets an identity's certificate through exactly if its trust store admits the device.
  Admits-iff :
      (key : KeyPair) (identity : Identity rcgen) (t : TrustStore) (now : Instant)
      → of_key rcgen key ≡ ok identity
      → (verify_server_cert provider (new provider t) (cert_der rcgen identity) now ≡ ok tt)
        ↔ Admits t identity.device_id now
  unfolding verify_server_cert new cert_der
  Admits-iff key identity t now made =
      let shown = (of_key_lem rcgen key identity made).1 in
      let check = verify_iff crypto t identity.cert now in
      (
        λ h.
            let (id, read, admitted) = check.0.0 h in
            let same : id ≡ identity.device_id = cc (read, shown) in
            subst (λ i. Admits t i now) same admitted,
        λ h. check.0.1 (identity.device_id, shown, h),
      )

  -- When an endpoint that dials meets one that listens, each with an identity made from a key, their
  -- configurations make a handshake succeed exactly if each side's trust store admits the other's
  -- device id, which it has pinned or its pairing window is open, and the crypto provider accepts the
  -- signature of each under its own certificate.
  pub listening-dialing :
      (answers answers' : Answers) (key key' : KeyPair) (desk phone : Identity rcgen)
      (t t' : TrustStore) (addr : SocketAddr) (e e' : Endpoint provider) (signed : Signed)
      (now now' : Instant)
      → of_key rcgen key ≡ ok desk
      → of_key rcgen key' ≡ ok phone
      → listening rcgen provider answers desk t addr ≡ ok e
      → dialing rcgen provider answers' phone t' ≡ ok e'
      → (server client : TlsConfig provider) × (e.server ≡ some server)
        × (e'.default_client ≡ some client)
        × (Accepts client server signed now' now ↔ (
            Admits t' desk.device_id now'
            × Admits t phone.device_id now
            × (provider.verify_tls13_signature signed.server_message
                  (cert_der rcgen desk)
                  signed.server_signature
                ≡ ok tt)
            × (provider.verify_tls13_signature signed.client_message
                  (cert_der rcgen phone)
                  signed.client_signature
                ≡ ok tt)))
  unfolding Accepts configured verify_client_cert verify_server_cert verify_tls13_signature
      penguinsync.Net.Tls.verify_client_cert penguinsync.Net.Tls.verify_server_cert
      penguinsync.Net.Tls.check
  listening-dialing answers answers' key key' desk phone t t' addr e e' signed now now' made made'
        up up' =
      let server = Admits-iff key desk t' now' made in
      let client = Admits-iff key' phone t now made' in
      (
        configured rcgen provider desk t,
        configured rcgen provider phone t',
        listening-configured answers desk t addr e up,
        dialing-configured answers' phone t' e' up',
        (
          λ h. (server.0 h.2.0, client.0 h.3.0, h.2.1, h.3.1),
          λ h. (refl, refl, (server.1 h.0, h.2), (client.1 h.1, h.3)),
        ),
      )
