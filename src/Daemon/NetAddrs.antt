-- ===== src/Daemon/NetAddrs.antt =====
-- crates/daemon/src/net_addrs.rs: the addresses that the QR code carries. `guess` is what the route
-- lookup of `guess_outbound_ip` gives.
use penguinsync.Base.{List, [], ◌∷◌, Option, none, some, if◌then◌else◌, not}
use penguinsync.Base.Addr.{IpAddr, SocketAddr, is_unspecified, octets}
use penguinsync.Base.Addr

unfoldable pub candidate_addrs : SocketAddr → Option IpAddr → List SocketAddr
candidate_addrs listen_addr guess =
    if not (is_unspecified listen_addr.ip) then listen_addr ∷ [] else elim guess [
      | none ↦ Addr.new (octets 127 0 0 1) listen_addr.port ∷ []
      | some ip ↦ Addr.new ip listen_addr.port ∷ Addr.new (octets 127 0 0 1) listen_addr.port ∷ []
    ]
