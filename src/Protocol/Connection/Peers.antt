-- ===== src/Protocol/Connection/Peers.antt =====
-- Two machines that talk to each other.
use penguinsync.Base.{ℕ, ◌≤◌, ◌≡◌, refl, List, [], ◌∷◌, ◌++◌, arith, Option, none, some, Bytes}
use penguinsync.Base.Time.{Instant, duration_since}
use penguinsync.Protocol.Connection.{
  ConnectionMachine, ready, LocalIdentity, started, received, tick, Action, send, peer_handshake,
  ponged, new, handle, Handled,
}

-- What an action puts on the wire arrives at the other machine.
deliver_one : ConnectionMachine → Action → Instant → Handled
deliver_one m (send msg) clock = handle m (received msg) 0 clock
deliver_one m _ clock = (m, [])

deliver : ConnectionMachine → List Action → Instant → Handled
deliver m [] clock = (m, [])
deliver m (a ∷ rest) clock =
    let (m', actions) = deliver_one m a clock in
    let (m'', later) = deliver m' rest clock in (m'', actions ++ later)

-- Two fresh machines that start and hear each other are both ready, and each reports the other's id,
-- name and capabilities, with the pairing token that the other one carries.
handshake_exchange :
    (a b : LocalIdentity) (interval clock : ℕ) (token : Option Bytes)
    → let ma = new a interval token in
      let mb = new b interval none in
      let (ma', heard_b) = deliver ma (handle mb started 0 clock).1 clock in
      let (mb', heard_a) = deliver mb (handle ma started 0 clock).1 clock in
      (ma'.phase ≡ ready)
      × (mb'.phase ≡ ready)
      × (heard_b
          ≡ peer_handshake (record {
            device_id = b.device_id;
            name = b.name;
            capabilities = b.capabilities;
            pairing_token = none;
          })
            ∷ [])
      × (heard_a
          ≡ peer_handshake (record {
            device_id = a.device_id;
            name = a.name;
            capabilities = a.capabilities;
            pairing_token = token;
          })
            ∷ [])
unfolding new handle deliver deliver_one
handshake_exchange a b interval clock token = (refl, refl, refl, refl)

-- A ping that is due reaches a ready peer and comes back: the round trip is reported with the time
-- since it left, and nothing is pending any more.
ping_round_trip :
    (a b : ConnectionMachine) (last now nonce clock : ℕ)
    → a.phase ≡ ready
    → b.phase ≡ ready
    → a.pending_ping ≡ none
    → a.last_ping_sent ≡ some last
    → a.keepalive_interval ≤ duration_since now last
    → let (a', pinged) = handle a (tick now) nonce clock in
      let (b', answered) = deliver b pinged clock in
      let (a'', heard) = deliver a' answered clock in
      (b' ≡ b) × (heard ≡ ponged (duration_since clock now) ∷ []) × (a''.pending_ping ≡ none)
unfolding handle deliver deliver_one
ping_round_trip a b last now nonce clock ha hb hp hl due = ground arith
