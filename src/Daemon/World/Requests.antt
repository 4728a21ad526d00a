-- ===== src/Daemon/World/Requests.antt =====
-- How often the human is asked.
use penguinsync.Base.{
  ℕ, ◌+◌, ◌≤◌, ◌≡◌, Bytes, Str, Bool, false, List, [], ◌∷◌, Option, none, some, arith, bytes_key,
  if◌then◌else◌, length, length-append, option-either,
}
use penguinsync.Base.Result.{Result, ok, err}
use penguinsync.Base.Map.{lookup, insert}
use penguinsync.Base.Time.{Instant}
use penguinsync.Base.Addr.{SocketAddr, addr_key}
use penguinsync.Protocol.Hex.{from_hex, to_hex, short_fingerprint}
use penguinsync.Protocol.Clip.{Clip}
use penguinsync.Protocol.Pairing.{PairingToken, issue, redeem}
use penguinsync.Net.Session.{peer_handshake_event, ponged_event, clipboard_received, closed}
use penguinsync.Daemon.Shared.{Shared, ListenerEvent, connected, session, Waiting, persist_state}
use penguinsync.Daemon.Clipboard.{
  handle_received, apply_and_relay, apply_locally, send_all, broadcast, watch_round,
}
use penguinsync.Daemon.Dbus.{
  open_pairing, FdoError, invalid_args, confirm_pairing, unpair, begin_waiting, resolve, forget,
}
use penguinsync.Daemon.Orchestrator.{
  handle_event, handle_session_event, handle_handshake, handle_unpaired, redeem_current, request,
  mark_connected, confirmed, on_closed,
}
use penguinsync.Daemon.World.{
  Input, arrives, turn, timeout, start_pairing, confirm, unpair_device, changes, take_turn,
  time_out, step, run,
}

-- 1 for a token that can still be redeemed.
abbrev pub live : Option PairingToken → ℕ
live none = 0
live (some t) = if t.redeemed then 0 else 1

-- The requests made and those that the current token can still lead to.
abbrev budget : Shared → ℕ
budget s = length s.requests + live s.current_token

budget-mark_connected :
    (s : Shared) (remote : SocketAddr) (id : Bytes) (name : Str)
    → budget (mark_connected s remote id name) ≡ budget s
unfolding mark_connected
budget-mark_connected s remote id name = ground arith

budget-handle_received :
    (s : Shared) (sender : Bytes) (clip : Clip) → budget (handle_received s sender clip) ≡ budget s
unfolding handle_received apply_and_relay apply_locally send_all
budget-handle_received s sender clip = ground arith

budget-handle_unpaired :
    (s : Shared) (remote : SocketAddr) (id : Bytes) (name : Str) (token : Option Bytes)
    (now : Instant)
    → budget (handle_unpaired s remote id name token now) ≤ budget s
unfolding handle_unpaired redeem_current request begin_waiting redeem
budget-handle_unpaired s remote id name none now = ground arith
budget-handle_unpaired s remote id name (some presented) now = ground (
  arith,
  length-append s.requests
      (record { device_id = to_hex id; fingerprint = short_fingerprint id; name = name } ∷ []),
)

budget-handle_event :
    (s : Shared) (e : ListenerEvent) (now : Instant) → budget (handle_event s e now) ≤ budget s
unfolding handle_event handle_session_event handle_handshake on_closed
budget-handle_event s (connected remote handle) now = ground arith
budget-handle_event s (session remote (ponged_event rtt)) now = ground arith
budget-handle_event s (session remote (closed reason)) now = ground arith
budget-handle_event s (session remote (clipboard_received clip)) now =
    option-either (λ s'. budget s' ≤ budget s) (lookup remote s.remote_to_device) s
      (λ sender. handle_received s sender clip) (omega arith)
      (λ sender. omega (arith, budget-handle_received s sender clip))
budget-handle_event s (session remote (peer_handshake_event p)) now =
    let s' = record s { remote_to_device = insert remote p.device_id s.remote_to_device } in
    ground (
      arith,
      budget-mark_connected s' remote p.device_id p.name,
      budget-handle_unpaired s' remote p.device_id p.name p.pairing_token now,
    )

budget-confirmed :
    (s : Shared) (w : Waiting) (accept : Bool) → budget (confirmed s w accept) ≡ budget s
unfolding confirmed persist_state mark_connected
budget-confirmed s w accept = ground arith

budget-resolve : (s : Shared) (id : Bytes) (accept : Bool) → budget (resolve s id accept) ≡ budget s
unfolding resolve
budget-resolve s id accept = ground arith

budget-forget : (s : Shared) (id : Bytes) → budget (forget s id) ≡ budget s
unfolding forget persist_state
budget-forget s id = ground arith

budget-watch_round :
    (blake3 : Bytes → Bytes) (s : Shared) (mime : Str) (read : Option Bytes)
    → budget (watch_round blake3 s mime read) ≡ budget s
unfolding watch_round broadcast send_all
budget-watch_round blake3 s mime read = ground arith

-- 1 for a call of `start_pairing`.
abbrev pub starts : Input → ℕ
starts (start_pairing random now) = 1
starts _ = 0

budget-take_turn :
    (s : Shared) (o : Option Waiting) (q : List ListenerEvent) (now : Instant)
    → budget (take_turn s o q now) ≤ budget s
unfolding take_turn
budget-take_turn s none [] now = ground arith
budget-take_turn s none (e ∷ rest) now = budget-handle_event (record s { inbox = rest }) e now
budget-take_turn s (some w) q now =
    option-either (λ s'. budget s' ≤ budget s) w.answer s (confirmed s w) (omega arith)
      (λ accept. omega (arith, budget-confirmed s w accept))

budget-time_out : (s : Shared) (o : Option Waiting) → budget (time_out s o) ≤ budget s
unfolding time_out
budget-time_out s none = ground arith
budget-time_out s (some w) =
    option-either (λ s'. budget s' ≤ budget s) w.answer (confirmed s w false) (confirmed s w)
      (omega (arith, budget-confirmed s w false))
      (λ accept. omega (arith, budget-confirmed s w accept))

budget-step :
    (blake3 : Bytes → Bytes) (s : Shared) (i : Input)
    → budget (step blake3 s i) ≤ budget s + starts i
unfolding step open_pairing issue confirm_pairing unpair
budget-step blake3 s (arrives e) = ground arith
budget-step blake3 s (turn now) = ground (arith, budget-take_turn s s.waiting s.inbox now)
budget-step blake3 s timeout = ground (arith, budget-time_out s s.waiting)
budget-step blake3 s (start_pairing random now) = ground arith
budget-step blake3 s (confirm device_id accept) =
    option-either (λ (r : Shared × Result FdoError (Unit {0})). budget r.0 ≤ budget s + 0)
      (from_hex device_id) (s, err invalid_args) (λ id. (resolve s id accept, ok tt)) (omega arith)
      (λ id. omega (arith, budget-resolve s id accept))
budget-step blake3 s (unpair_device device_id) =
    option-either (λ (r : Shared × Result FdoError (Unit {0})). budget r.0 ≤ budget s + 0)
      (from_hex device_id) (s, err invalid_args) (λ id. (forget s id, ok tt)) (omega arith)
      (λ id. omega (arith, budget-forget s id))
budget-step blake3 s (changes mime read) = ground (arith, budget-watch_round blake3 s mime read)

abbrev pub count_starts : List Input → ℕ
count_starts [] = 0
count_starts (i ∷ rest) = starts i + count_starts rest

budget-run :
    (blake3 : Bytes → Bytes) (s : Shared) (inputs : List Input)
    → budget (run blake3 s inputs) ≤ budget s + count_starts inputs
unfolding run
budget-run blake3 s [] = omega arith
budget-run blake3 s (i ∷ rest) =
    let s' = step blake3 s i in omega (arith, budget-step blake3 s i, budget-run blake3 s' rest)

-- However many handshakes arrive, with whatever tokens: from a state without a token the human is
-- asked at most once for each call of `start_pairing`.
pub run-requests :
    (blake3 : Bytes → Bytes) (s : Shared) (inputs : List Input)
    → s.current_token ≡ none
    → length (run blake3 s inputs).requests ≤ length s.requests + count_starts inputs
run-requests blake3 s inputs h = ground (arith, budget-run blake3 s inputs)
