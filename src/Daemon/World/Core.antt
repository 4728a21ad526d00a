-- ===== src/Daemon/World/Core.antt =====
-- What the daemon's inputs do to the pairings and to the confirmation that is waited for.
use penguinsync.Base.{
  ℕ, ◌+◌, ◌≡◌, ◌⊎◌, inl, inr, refl, Bytes, Str, Bool, true, false, List, Option, none, some, arith,
  bytes_key, if◌then◌else◌, if-either, ◌∙◌,
}
use penguinsync.Base.Map.{Map, lookup, insert, remove}
use penguinsync.Base.Time.{Instant}
use penguinsync.Base.Addr.{SocketAddr, addr_key}
use penguinsync.Protocol.Clip.{Clip}
use penguinsync.Net.Tls.{is_paired, pin, close_pairing_window, unpair as revoke}
use penguinsync.Net.Session.{peer_handshake_event, ponged_event, clipboard_received, closed}
use penguinsync.Daemon.State.{PersistedState, upsert}
use penguinsync.Daemon.State
use penguinsync.Daemon.Shared.{Shared, ListenerEvent, connected, session, Waiting, persist_state}
use penguinsync.Daemon.Clipboard.{
  handle_received, apply_and_relay, apply_locally, send_all, broadcast, watch_round,
}
use penguinsync.Daemon.Dbus.{begin_waiting, resolve, forget, answer}
use penguinsync.Daemon.Orchestrator.{
  handle_event, handle_session_event, handle_handshake, handle_unpaired, redeem_current, request,
  mark_connected, confirmed, on_closed,
}

pub record Core : Type 0 where
  pub paired : Map Bytes (Unit {0})
  pub state : PersistedState
  pub disk : PersistedState
  pub disk_writable : Bool
  pub waiting : Option Waiting
  pub pending : Map Bytes ℕ
  pub next_channel : ℕ
  pub inbox : List ListenerEvent

abbrev pub core : Shared → Core
core s = record {
  paired = s.trust.paired;
  state = s.state;
  disk = s.disk;
  disk_writable = s.disk_writable;
  waiting = s.waiting;
  pending = s.pending_confirmations;
  next_channel = s.next_channel;
  inbox = s.inbox;
}

core-mark_connected :
    (s : Shared) (remote : SocketAddr) (id : Bytes) (name : Str)
    → core (mark_connected s remote id name) ≡ core s
unfolding mark_connected
core-mark_connected s remote id name = ground arith

core-on_closed : (s : Shared) (remote : SocketAddr) → core (on_closed s remote) ≡ core s
unfolding on_closed
core-on_closed s remote = ground arith

core-handle_received :
    (s : Shared) (sender : Bytes) (clip : Clip) → core (handle_received s sender clip) ≡ core s
unfolding handle_received apply_and_relay apply_locally send_all
core-handle_received s sender clip = ground arith

pub core-watch_round :
    (blake3 : Bytes → Bytes) (s : Shared) (mime : Str) (read : Option Bytes)
    → core (watch_round blake3 s mime read) ≡ core s
unfolding watch_round broadcast send_all
core-watch_round blake3 s mime read = ground arith

-- The device id that an event claims.
abbrev pub Claims : Bytes → ListenerEvent → Type 0
Claims id (session _ (peer_handshake_event p)) = p.device_id ≡ id
Claims id _ = ⊥

-- An event leaves the pairings alone; it can only start the wait for a confirmation of the device id
-- that it claims.
abbrev pub IsAsked : Core → ListenerEvent → Core → Type 0
IsAsked c e c' =
    (w : Waiting) × (w.channel ≡ c.next_channel)
    × (w.answer ≡ none)
    × Claims w.device_id e
    × (c' ≡ record c {
      waiting = some w;
      pending = insert w.device_id c.next_channel c.pending;
      next_channel = c.next_channel + 1;
    })

handle_unpaired-core :
    (s : Shared) (remote : SocketAddr) (id : Bytes) (name : Str) (token : Option Bytes)
    (now : Instant) (e : ListenerEvent)
    → Claims id e
    → let c' = core (handle_unpaired s remote id name token now) in
      (c' ≡ core s) ⊎ IsAsked (core s) e c'
unfolding handle_unpaired request begin_waiting
handle_unpaired-core s remote id name none now e h = inl refl
handle_unpaired-core s remote id name (some presented) now e h =
    if-either (λ s'. (core s' ≡ core s) ⊎ IsAsked (core s) e (core s'))
      (redeem_current s.current_token presented now).1 _ _ (inr (_, refl, refl, h, refl)) (inl refl)

pub handle_event-core :
    (s : Shared) (e : ListenerEvent) (now : Instant)
    → (core (handle_event s e now) ≡ core s) ⊎ IsAsked (core s) e (core (handle_event s e now))
unfolding handle_event handle_session_event handle_handshake
handle_event-core s (connected remote handle) now = inl refl
handle_event-core s (session remote (ponged_event rtt)) now = inl refl
handle_event-core s (session remote (closed reason)) now = inl (core-on_closed s remote)
handle_event-core s (session remote (clipboard_received clip)) now =
    inl (received (lookup remote s.remote_to_device))
  where
    received :
        (o : Option Bytes)
        → core (elim o [ none ↦ s | some sender ↦ handle_received s sender clip ]) ≡ core s
    received none = refl
    received (some sender) = core-handle_received s sender clip
handle_event-core s (session remote (peer_handshake_event p)) now =
    if-either
      (λ s'.
        (core s' ≡ core s) ⊎ IsAsked (core s) (session remote (peer_handshake_event p)) (core s'))
      (is_paired s.trust p.device_id) _ _ (inl (core-mark_connected _ remote p.device_id p.name))
      (handle_unpaired-core _ remote p.device_id p.name p.pairing_token now
        (session remote (peer_handshake_event p)) refl)

-- The pairing of a confirmed device, and the removal of one that is unpaired, on the file where it
-- can be written.
abbrev pub saved : Core → Core
saved c = if c.disk_writable then record c { disk = c.state } else c

abbrev pub pinned : Core → Waiting → Core
pinned c w = record c {
  waiting = none;
  paired = insert w.device_id tt c.paired;
  state = upsert c.state w.device_id w.name;
}

abbrev pub settled : Core → Waiting → Bool → Core
settled c w false = record c { waiting = none }
settled c w true = saved (pinned c w)

pub core-confirmed :
    (s : Shared) (w : Waiting) (accept : Bool)
    → core (confirmed s w accept) ≡ settled (core s) w accept
unfolding confirmed persist_state pin close_pairing_window
core-confirmed s w false = refl
core-confirmed s w true = core-mark_connected _ w.remote w.device_id w.name ∙ ground arith

abbrev pub unpinned : Core → Bytes → Core
unpinned c id = record c { paired = remove id c.paired; state = State.remove c.state id }

abbrev pub forgotten : Core → Bytes → Core
forgotten c id = saved (unpinned c id)

pub core-forget : (s : Shared) (id : Bytes) → core (forget s id) ≡ forgotten (core s) id
unfolding forget persist_state revoke
core-forget s id = ground arith

abbrev pub resolved : Core → Bytes → Bool → Core
resolved c id accept = elim (lookup id c.pending) [
  | none ↦ c
  | some channel ↦ record c {
    pending = remove id c.pending;
    waiting = answer c.waiting channel accept;
  }
]

pub core-resolve :
    (s : Shared) (id : Bytes) (accept : Bool)
    → core (resolve s id accept) ≡ resolved (core s) id accept
unfolding resolve
core-resolve s id accept = ground arith
