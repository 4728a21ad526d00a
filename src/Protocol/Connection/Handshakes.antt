-- ===== src/Protocol/Connection/Handshakes.antt =====
-- What the handshake gates: before it nothing but our own handshake leaves, after it no other is
-- reported.
use penguinsync.Base.{
  ℕ, ◌+◌, ◌≤◌, ◌≡◌, ◌≢◌, refl, Bool, true, false, List, [], ◌∷◌, ◌++◌, All, All-append, arith,
  Option, ◌↔◌, Bytes,
}
use penguinsync.Protocol.Message.{handshake, ping, pong, clipboard, protocol_version}
use penguinsync.Protocol.Connection.{
  ConnectionMachine, Phase, awaiting_peer_handshake, ready, LocalIdentity, Event, started, received,
  tick, send_clipboard, Action, send, peer_handshake, reject, version_mismatch, Call, new,
  own_handshake, handle, run, tally,
}

-- A handshake of our version.
abbrev pub IsAccepted : Event → Type 0
IsAccepted (received (handshake h)) = h.version ≡ protocol_version
IsAccepted _ = ⊥

-- What may come out before the peer's handshake.
abbrev pub IsEarly : ConnectionMachine → Action → Type 0
IsEarly m (send msg) = msg ≡ own_handshake m
IsEarly m (reject (version_mismatch ours theirs)) =
    (ours ≡ protocol_version) × (theirs ≢ protocol_version)
IsEarly m _ = ⊥

handle-awaiting :
    (m : ConnectionMachine) (e : Event) (nonce clock : ℕ)
    → m.phase ≡ awaiting_peer_handshake
    → ¬ IsAccepted e
    → ((handle m e nonce clock).0 ≡ m) × All (IsEarly m) (handle m e nonce clock).1
unfolding handle
handle-awaiting m started nonce clock h na = (refl, (refl, tt))
handle-awaiting m (received (handshake x)) nonce clock h na = ground arith
handle-awaiting m (received (ping x)) nonce clock h na = ground arith
handle-awaiting m (received (pong x)) nonce clock h na = ground arith
handle-awaiting m (received (clipboard x)) nonce clock h na = ground arith
handle-awaiting m (tick now) nonce clock h na = ground arith
handle-awaiting m (send_clipboard clip) nonce clock h na = ground arith

-- Until a handshake of our version arrives, whatever else happens, the machine does not change, and
-- all that it asks for is to send our own handshake or to reject another version: no clipboard
-- leaves or is reported, and nothing of the peer is.
pub run-awaiting :
    (m : ConnectionMachine) (cs : List Call)
    → m.phase ≡ awaiting_peer_handshake
    → All (λ c. ¬ IsAccepted c.event) cs
    → ((run m cs).0 ≡ m) × All (IsEarly m) (run m cs).1
unfolding run
run-awaiting m [] h na = (refl, tt)
run-awaiting m (c ∷ cs) h na =
    let (same, early) = handle-awaiting m c.event c.nonce c.clock h na.0 in
    let (same', early') = run-awaiting m cs h na.1 in
    rw same
      (same', All-append (IsEarly m) (handle m c.event c.nonce c.clock).1 (run m cs).1 early early')

abbrev is_peer_handshake : Action → Bool
is_peer_handshake (peer_handshake _) = true
is_peer_handshake _ = false

-- 1 once the handshake is done.
abbrev progress : Phase → ℕ
progress awaiting_peer_handshake = 0
progress ready = 1

pub tally-append :
    (p : Action → Bool) (xs ys : List Action) → tally p (xs ++ ys) ≡ tally p xs + tally p ys
unfolding tally
tally-append p [] ys = omega arith
tally-append p (x ∷ xs) ys = omega (arith, tally-append p xs ys)

progress-handle :
    (m : ConnectionMachine) (e : Event) (nonce clock : ℕ)
    → tally is_peer_handshake (handle m e nonce clock).1 + progress m.phase
      ≡ progress (handle m e nonce clock).0.phase
unfolding handle tally
progress-handle m (received (handshake x)) nonce clock = ground arith
progress-handle m (received (ping x)) nonce clock = ground arith
progress-handle m (received (pong x)) nonce clock = ground arith
progress-handle m (received (clipboard x)) nonce clock = ground arith
progress-handle m _ nonce clock = ground arith

progress-run :
    (m : ConnectionMachine) (cs : List Call)
    → tally is_peer_handshake (run m cs).1 + progress m.phase ≡ progress (run m cs).0.phase
unfolding run
progress-run m [] = unfold tally in omega arith
progress-run m (c ∷ cs) =
    let (m', actions) = handle m c.event c.nonce c.clock in
    omega (
      arith,
      tally-append is_peer_handshake actions (run m' cs).1,
      progress-handle m c.event c.nonce c.clock,
      progress-run m' cs,
    )

-- Over the whole life of a connection the peer's handshake is reported at most once, and the machine
-- is ready exactly when it was.
handshake_once :
    (local : LocalIdentity) (interval : ℕ) (token : Option Bytes) (cs : List Call)
    → let (m, actions) = run (new local interval token) cs in
      (tally is_peer_handshake actions ≤ 1)
      × ((m.phase ≡ ready) ↔ (tally is_peer_handshake actions ≡ 1))
unfolding new
handshake_once local interval token cs = ground (arith, progress-run (new local interval token) cs)
