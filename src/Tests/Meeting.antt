-- ===== src/Tests/Meeting.antt =====
-- Runs of endpoints that meet, and of the listener's channel.
use penguinsync.Base.{
  ◌≡◌, ◌↔◌, refl, Bytes, str, List, [], ◌∷◌, ◌++◌, none, some, arith, bytes_key, ite, ◌=?◌,
}
use penguinsync.Base.Result.{Result, ok, err}
use penguinsync.Base.Addr.{SocketAddr, v4, octets}
use penguinsync.Net.Tls.{TrustStore, TlsError, malformed_certificate}
use penguinsync.Net.Tls.Verifier.{CryptoProvider}
use penguinsync.Net.Identity.{of_key, cert_der, key_der}
use penguinsync.Net.Endpoint.{
  Answers, TlsConfig, tls13, alpn, listening, dialing, server_config, client_config,
}
use penguinsync.Net.Endpoint.Mutual.{Accepts, Admits, Signed, listening-dialing}
use penguinsync.Net.Listener.{
  Incoming, ListenerEvent, connected, session, accept_and_drain, nothing, first, second, no_task,
  task,
}
use penguinsync.Net.Listener.Order.{only, run-in_order}
use penguinsync.Net.Session.{closed, keepalive_timed_out_closed, drain}
use penguinsync.Tests.Crates.{plain_crypto}
use penguinsync.Tests.Starts.{plain_rcgen, identity_of}

-- A signature is the certificate and the message.
unfoldable signed_by : Bytes → Bytes → Bytes → Result TlsError (Unit {0})
signed_by message cert dss = ite (dss =? cert ++ message) (ok tt) (err malformed_certificate)

abbrev plain_provider : CryptoProvider plain_crypto
plain_provider = record {
  verify_tls12_signature = λ message cert dss. ok tt;
  verify_tls13_signature = signed_by;
  supported_schemes = 0x0807 ∷ [];
}

abbrev open_ports : Answers
open_ports = record {
  with_client_auth_cert = ok tt;
  with_single_cert = ok tt;
  quic_client = ok tt;
  quic_server = ok tt;
  bind = λ addr. ok addr;
}

abbrev all_addrs : SocketAddr
all_addrs = record { ip = v4 0; port = 58210; flowinfo = 0; scope_id = 0 }

abbrev any_port : SocketAddr
any_port = record { ip = v4 0; port = 0; flowinfo = 0; scope_id = 0 }

abbrev config_of : Bytes → TrustStore → TlsConfig plain_provider
config_of k t = record {
  versions = tls13 ∷ [];
  verifier = record { trust = t };
  cert_chain = k ∷ [];
  key = k;
  alpn_protocols = alpn ∷ [];
}

-- The desktop has pinned the phone, and the phone the desktop.
abbrev pins : Bytes → TrustStore
pins id = record { paired = (id, tt) ∷ []; pairing_deadline = none }

abbrev signatures : Signed plain_rcgen plain_provider
signatures = record {
  server_message = str "hi";
  server_signature = 1 ∷ str "hi";
  client_message = str "ho";
  client_signature = 2 ∷ str "ho";
}

listening-dialing_example :
    (server client : TlsConfig plain_provider) × (some (config_of (1 ∷ []) (pins (2 ∷ [])))
      ≡ some server)
    × (some (config_of (2 ∷ []) (pins (1 ∷ []))) ≡ some client)
    × (Accepts plain_rcgen plain_provider client server signatures 7 5 ↔ (
        Admits plain_rcgen plain_provider (pins (1 ∷ [])) (1 ∷ []) 7
        × Admits plain_rcgen plain_provider (pins (2 ∷ [])) (2 ∷ []) 5
        × (signed_by (str "hi") (1 ∷ []) (1 ∷ str "hi") ≡ ok tt)
        × (signed_by (str "ho") (2 ∷ []) (2 ∷ str "ho") ≡ ok tt)))
unfolding listening dialing server_config client_config of_key penguinsync.Base.Addr.new octets
    cert_der key_der penguinsync.Net.Tls.Verifier.new
listening-dialing_example =
    listening-dialing plain_rcgen plain_provider open_ports open_ports (1 ∷ []) (2 ∷ [])
      (identity_of (1 ∷ [])) (identity_of (2 ∷ [])) (pins (2 ∷ [])) (pins (1 ∷ [])) all_addrs
      (record {
        bound = all_addrs;
        server = some (config_of (1 ∷ []) (pins (2 ∷ [])));
        default_client = some (config_of (1 ∷ []) (pins (2 ∷ [])));
      })
      (record {
        bound = any_port;
        server = none;
        default_client = some (config_of (2 ∷ []) (pins (1 ∷ [])));
      })
      signatures 5 7 refl refl refl refl

-- Two connections whose events are mixed.
abbrev two_incoming : List Incoming
two_incoming = ok (any_port, 1, closed keepalive_timed_out_closed ∷ []) ∷ []

abbrev mixed : List ListenerEvent
mixed =
    connected all_addrs (record { remote = all_addrs; session = 2 })
    ∷ connected any_port (record { remote = any_port; session = 1 })
    ∷ session any_port (closed keepalive_timed_out_closed)
    ∷ session all_addrs (closed keepalive_timed_out_closed)
    ∷ []

run-in_order_example :
    only all_addrs mixed
    ≡ connected all_addrs (record { remote = all_addrs; session = 2 })
      ∷ session all_addrs (closed keepalive_timed_out_closed)
      ∷ []
unfolding penguinsync.Net.Listener.run accept_and_drain drain
run-in_order_example =
    run-in_order two_incoming [] all_addrs 2 (closed keepalive_timed_out_closed ∷ []) mixed
      ((λ e. ground arith), tt) tt
      (task (task no_task (first (first nothing))) (second (first (first (second nothing)))))
