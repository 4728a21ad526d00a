-- ===== src/Daemon/World/Pairing.antt =====
-- A pairing from `start_pairing` to the human's answer: crates/daemon/src/dbus.rs and orchestrator.rs.
use penguinsync.Base.{
  ◌+◌, ◌<◌, ◌≡◌, refl, Bytes, Bool, true, false, List, [], ◌∷◌, ◌++◌, Option, none, some, arith,
  subst, ap, sym, ◌∙◌, IsArray, bytes_key, if◌then◌else◌,
}
use penguinsync.Base.Map.{insert, remove, lookup-insert}
use penguinsync.Base.Time.{Instant, duration_since}
use penguinsync.Base.Addr.{SocketAddr, addr_key}
use penguinsync.Protocol.Hex.{to_hex, short_fingerprint, device_id_len}
use penguinsync.Protocol.Hex.RoundTrip.{from_hex-to_hex}
use penguinsync.Protocol.Pairing.{token_ttl, issue, redeem, is_expired}
use penguinsync.Protocol.Connection.{PeerHandshake}
use penguinsync.Net.Tls.{is_paired, open_pairing_window, close_pairing_window, pin}
use penguinsync.Net.Session.{peer_handshake_event}
use penguinsync.Daemon.State.{upsert}
use penguinsync.Daemon.Shared.{Shared, ListenerEvent, session, PairingRequest, persist_state}
use penguinsync.Daemon.Dbus.{open_pairing, confirm_pairing, resolve, begin_waiting, answer}
use penguinsync.Daemon.Orchestrator.{
  handle_event, handle_session_event, handle_handshake, handle_unpaired, redeem_current, request,
  confirmed, mark_connected,
}
use penguinsync.Daemon.World.{Input, arrives, turn, start_pairing, confirm, step, run, take_turn}

-- The orchestrator waits for events, and there are none.
pub record IsIdle (s : Shared) : Type 0 where
  pub free : s.waiting ≡ none
  pub quiet : s.inbox ≡ []

-- What `PairingRequested` says of a device.
abbrev asks_for : PeerHandshake → PairingRequest
asks_for p = record {
  device_id = to_hex p.device_id;
  fingerprint = short_fingerprint p.device_id;
  name = p.name;
}

-- The daemon once the token is redeemed.
abbrev asked : Shared → SocketAddr → PeerHandshake → Bytes → Instant → Option Bool → Shared
asked s remote p random t answered = record s {
  trust = open_pairing_window s.trust (t + token_ttl);
  current_token = some (record (issue random t) { redeemed = true });
  remote_to_device = insert remote p.device_id s.remote_to_device;
  requests = s.requests ++ asks_for p ∷ [];
  pending_confirmations = insert p.device_id s.next_channel s.pending_confirmations;
  next_channel = s.next_channel + 1;
  waiting = some (record {
    channel = s.next_channel;
    answer = answered;
    remote = remote;
    device_id = p.device_id;
    name = p.name;
  });
  inbox = [];
}

handshake_asks :
    (s : Shared) (remote : SocketAddr) (p : PeerHandshake) (random : Bytes) (t t' : Instant)
    → is_paired s.trust p.device_id ≡ false
    → p.pairing_token ≡ some random
    → duration_since t' t < token_ttl
    → handle_event
        (record (open_pairing s random t) { inbox = [] })
        (session remote (peer_handshake_event p))
        t'
      ≡ asked s remote p random t none
unfolding handle_event handle_session_event handle_handshake handle_unpaired redeem_current request
    begin_waiting open_pairing open_pairing_window is_paired issue redeem is_expired
handshake_asks s remote p random t t' strange token early = ground arith

abbrev replied : Shared → SocketAddr → PeerHandshake → Bytes → Instant → Bool → Shared
replied s remote p random t accept = record (asked s remote p random t (some accept)) {
  pending_confirmations =
      remove p.device_id (insert p.device_id s.next_channel s.pending_confirmations);
}

confirm-replied :
    (s : Shared) (remote : SocketAddr) (p : PeerHandshake) (random : Bytes) (t : Instant)
    (accept : Bool)
    → IsArray device_id_len p.device_id
    → (confirm_pairing (asked s remote p random t none) (to_hex p.device_id) accept).0
      ≡ replied s remote p random t accept
unfolding confirm_pairing resolve answer
confirm-replied s remote p random t accept h =
    rw (from_hex-to_hex p.device_id h, confirm_pairing)
      (ground (arith, lookup-insert p.device_id p.device_id s.next_channel s.pending_confirmations))

-- What the daemon is after the answer.
pub record IsSettled (s after : Shared) (p : PeerHandshake) (accept : Bool) : Type 0 where
  pub idle : IsIdle after
  pub trusted : is_paired after.trust p.device_id ≡ accept
  asked_once : after.requests ≡ s.requests ++ asks_for p ∷ []
  remembered : after.state ≡ (if accept then upsert s.state p.device_id p.name else s.state)
  pub stored : after.disk ≡ (if accept then upsert s.state p.device_id p.name else s.disk)

replied-IsSettled :
    (s : Shared) (remote : SocketAddr) (p : PeerHandshake) (random : Bytes) (t t' : Instant)
    (accept : Bool)
    → is_paired s.trust p.device_id ≡ false
    → s.disk_writable ≡ true
    → let now = replied s remote p random t accept in
      IsSettled s (take_turn now now.waiting [] t') p accept
unfolding take_turn confirmed persist_state mark_connected is_paired pin close_pairing_window
    open_pairing_window
replied-IsSettled s remote p random t t' false strange writable = record {
  idle = record { free = refl; quiet = refl };
  trusted = strange;
  asked_once = refl;
  remembered = refl;
  stored = refl;
}
replied-IsSettled s remote p random t t' true strange writable = record {
  idle = record { free = ground arith; quiet = ground arith };
  trusted = ground (arith, lookup-insert p.device_id p.device_id tt s.trust.paired);
  asked_once = ground arith;
  remembered = ground arith;
  stored = ground arith;
}

-- What happens at the daemon: the QR code is shown, the handshake arrives, the orchestrator takes it,
-- the human answers, and the orchestrator goes on.
abbrev pub pairing :
    SocketAddr → PeerHandshake → Bytes → Instant → Instant → Instant → Bool → List Input
pairing remote p random t t' t'' accept =
    start_pairing random t
    ∷ arrives (session remote (peer_handshake_event p))
    ∷ turn t'
    ∷ confirm (to_hex p.device_id) accept
    ∷ turn t''
    ∷ []

takes_turn :
    (s : Shared) (e : ListenerEvent) (now : Instant)
    → s.waiting ≡ none
    → s.inbox ≡ e ∷ []
    → take_turn s s.waiting s.inbox now ≡ handle_event (record s { inbox = [] }) e now
unfolding take_turn
takes_turn s e now free queue = cc (free, queue)

pub run-pairing :
    (blake3 : Bytes → Bytes) (s : Shared) (remote : SocketAddr) (p : PeerHandshake) (random : Bytes)
    (t t' t'' : Instant) (accept : Bool)
    → IsIdle s
    → is_paired s.trust p.device_id ≡ false
    → s.disk_writable ≡ true
    → IsArray device_id_len p.device_id
    → p.pairing_token ≡ some random
    → duration_since t' t < token_ttl
    → IsSettled s (run blake3 s (pairing remote p random t t' t'' accept)) p accept
unfolding run step take_turn open_pairing
run-pairing blake3 s remote p random t t' t'' accept idle strange writable whole token early =
    let e = session remote (peer_handshake_event p) in
    let waits = record (open_pairing s random t) { inbox = s.inbox ++ e ∷ [] } in
    let taken =
      takes_turn waits e t' idle.free (ap (λ (q : List ListenerEvent). q ++ e ∷ []) idle.quiet)
      ∙ handshake_asks s remote p random t t' strange token early in
    let goes_on : Shared → Shared = λ x. take_turn x x.waiting x.inbox t'' in
    let answers : Shared → Shared = λ x. (confirm_pairing x (to_hex p.device_id) accept).0 in
    subst (λ x. IsSettled s (goes_on x) p accept)
      (sym (ap answers taken ∙ confirm-replied s remote p random t accept whole))
      (replied-IsSettled s remote p random t t'' accept strange writable)
