-- ===== src/Protocol/Connection.antt =====
-- crates/protocol/src/connection.rs: the state machine of one connection. A call of `handle` takes
-- the number that `next_random_nonce` would give and the reading of the clock that `elapsed` makes;
-- durations are unbounded numbers of nanoseconds.
pub mod Handshakes
pub mod Keepalive
pub mod Peers
use penguinsync.Base.{
  ℕ, ◌+◌, ◌*◌, ◌%◌, ◌^◌, Bytes, Str, Bool, true, false, List, [], ◌∷◌, ◌++◌, Option, none, some,
  leb, ◌==◌, if◌then◌else◌,
}
use penguinsync.Base.Time.{Instant, Duration, duration_since}
use penguinsync.Protocol.Clip.{Clip}
use penguinsync.Protocol.Message.{
  Message, handshake, ping, pong, clipboard, Capability, Handshake, protocol_version,
}

pub record LocalIdentity : Type 0 where
  pub device_id : Bytes
  pub name : Str
  pub capabilities : List Capability

pub data Event : Type 0 where
  started : Event
  received : Message → Event
  tick : Instant → Event
  send_clipboard : Clip → Event

pub data RejectReason : Type 0 where
  version_mismatch : (ours theirs : ℕ) → RejectReason

-- What `Action::PeerHandshake` carries.
pub record PeerHandshake : Type 0 where
  pub device_id : Bytes
  pub name : Str
  pub capabilities : List Capability
  pub pairing_token : Option Bytes

pub data Action : Type 0 where
  send : Message → Action
  peer_handshake : PeerHandshake → Action
  ponged : Duration → Action
  peer_clipboard : Clip → Action
  keepalive_timed_out : Action
  reject : RejectReason → Action

abbrev pub pong_timeout_multiplier : ℕ
pong_timeout_multiplier = 3

pub data Phase : Type 0 where
  awaiting_peer_handshake ready : Phase

pub record ConnectionMachine : Type 0 where
  pub phase : Phase
  pub local : LocalIdentity
  pub outgoing_pairing_token : Option Bytes
  pub keepalive_interval : Duration
  pub last_ping_sent : Option Instant
  pub pending_ping : Option (ℕ × Instant)
  pub next_nonce : ℕ

unfoldable pub new : LocalIdentity → Duration → Option Bytes → ConnectionMachine
new local keepalive_interval outgoing_pairing_token = record {
  phase = awaiting_peer_handshake;
  local = local;
  outgoing_pairing_token = outgoing_pairing_token;
  keepalive_interval = keepalive_interval;
  last_ping_sent = none;
  pending_ping = none;
  next_nonce = 0;
}

abbrev pub Handled : Type 0
Handled = ConnectionMachine × List Action

unfoldable pub own_handshake : ConnectionMachine → Message
own_handshake m = handshake (record {
  version = protocol_version;
  device_id = m.local.device_id;
  name = m.local.name;
  capabilities = m.local.capabilities;
  pairing_token = m.outgoing_pairing_token;
})

unfoldable pub on_handshake : ConnectionMachine → Handshake → Handled
on_handshake m h =
    if h.version == protocol_version
    then (
      record m { phase = ready },
      peer_handshake (record {
        device_id = h.device_id;
        name = h.name;
        capabilities = h.capabilities;
        pairing_token = h.pairing_token;
      })
          ∷ [],
    )
    else (m, reject (version_mismatch protocol_version h.version) ∷ [])

-- `pending_ping.take()`; a ping with another nonce is put back.
unfoldable pub on_pong : ConnectionMachine → Option (ℕ × Instant) → ℕ → Instant → Handled
on_pong m none nonce clock = (m, [])
on_pong m (some (expected, sent_at)) nonce clock =
    if expected == nonce
    then (record m { pending_ping = none }, ponged (duration_since clock sent_at) ∷ [])
    else (m, [])

unfoldable pub on_received : ConnectionMachine → Phase → Message → Instant → Handled
unfolding on_handshake on_pong
on_received m awaiting_peer_handshake (handshake h) clock = on_handshake m h
on_received m ready (ping p) clock = (m, send (pong (record { nonce = p.nonce })) ∷ [])
on_received m ready (pong p) clock = on_pong m m.pending_ping p.nonce clock
on_received m ready (clipboard clip) clock = (m, peer_clipboard clip ∷ [])
on_received m _ _ clock = (m, [])

-- The first tick after the handshake only sets the baseline.
unfoldable pub ping_when_due : ConnectionMachine → Option Instant → Instant → ℕ → Handled
ping_when_due m none now nonce = (record m { last_ping_sent = some now }, [])
ping_when_due m (some last) now nonce =
    if leb m.keepalive_interval (duration_since now last)
    then (
      record m {
        next_nonce = (m.next_nonce + 1) % 2 ^ 64;
        last_ping_sent = some now;
        pending_ping = some (nonce, now);
      },
      send (ping (record { nonce = nonce })) ∷ [],
    )
    else (m, [])

unfoldable pub check_pong : ConnectionMachine → Option (ℕ × Instant) → Instant → ℕ → Handled
unfolding ping_when_due
check_pong m none now nonce = ping_when_due m m.last_ping_sent now nonce
check_pong m (some (expected, sent_at)) now nonce =
    if leb (m.keepalive_interval * pong_timeout_multiplier) (duration_since now sent_at)
    then (record m { pending_ping = none }, keepalive_timed_out ∷ [])
    else (m, [])

unfoldable pub on_tick : ConnectionMachine → Phase → Instant → ℕ → Handled
unfolding check_pong
on_tick m awaiting_peer_handshake now nonce = (m, [])
on_tick m ready now nonce = check_pong m m.pending_ping now nonce

unfoldable pub on_send_clipboard : ConnectionMachine → Phase → Clip → Handled
on_send_clipboard m ready clip = (m, send (clipboard clip) ∷ [])
on_send_clipboard m awaiting_peer_handshake clip = (m, [])

unfoldable pub handle : ConnectionMachine → Event → ℕ → Instant → Handled
unfolding own_handshake on_received on_tick on_send_clipboard
handle m started nonce clock = (m, send (own_handshake m) ∷ [])
handle m (received msg) nonce clock = on_received m m.phase msg clock
handle m (tick now) nonce clock = on_tick m m.phase now nonce
handle m (send_clipboard clip) nonce clock = on_send_clipboard m m.phase clip

-- One call of `handle`.
pub record Call : Type 0 where
  pub event : Event
  pub nonce : ℕ
  pub clock : Instant

-- The calls of a connection in their order, with all actions that they return.
unfoldable pub run : ConnectionMachine → List Call → Handled
run m [] = (m, [])
run m (c ∷ cs) =
    let (m', actions) = handle m c.event c.nonce c.clock in
    let (m'', later) = run m' cs in (m'', actions ++ later)

-- How many actions of a list pass a test.
unfoldable pub tally : (Action → Bool) → List Action → ℕ
tally p [] = 0
tally p (a ∷ rest) = (if p a then 1 else 0) + tally p rest
