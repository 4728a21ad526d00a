-- ===== src/Protocol/Connection/Keepalive.antt =====
-- The keepalive: one ping at a time, and what a silent peer leads to.
use penguinsync.Base.{
  ℕ, ◌+◌, ◌*◌, ◌≤◌, ◌<◌, ◌≡◌, ◌≢◌, refl, Bool, true, false, List, [], ◌∷◌, All, arith, Option, none,
  some,
}
use penguinsync.Base.Time.{Instant, duration_since}
use penguinsync.Protocol.Message.{handshake, ping, pong, clipboard}
use penguinsync.Protocol.Connection.{
  ConnectionMachine, ready, Event, received, tick, Action, send, ponged, keepalive_timed_out, Call,
  handle, run, tally, pong_timeout_multiplier,
}
use penguinsync.Protocol.Connection.Handshakes.{tally-append}

abbrev pub is_ping : Action → Bool
is_ping (send (ping _)) = true
is_ping _ = false

-- A round that ended: answered, or given up.
abbrev pub is_settled : Action → Bool
is_settled (ponged _) = true
is_settled keepalive_timed_out = true
is_settled _ = false

abbrev outstanding : Option (ℕ × Instant) → ℕ
outstanding none = 0
outstanding (some _) = 1

outstanding-handle :
    (m : ConnectionMachine) (e : Event) (nonce clock : ℕ)
    → tally is_ping (handle m e nonce clock).1 + outstanding m.pending_ping
      ≡ tally is_settled (handle m e nonce clock).1
        + outstanding (handle m e nonce clock).0.pending_ping
unfolding handle tally
outstanding-handle m (received (handshake x)) nonce clock = ground arith
outstanding-handle m (received (ping x)) nonce clock = ground arith
outstanding-handle m (received (pong x)) nonce clock = ground arith
outstanding-handle m (received (clipboard x)) nonce clock = ground arith
outstanding-handle m _ nonce clock = ground arith

-- Every ping that was ever sent was answered in time, was given up, or is the one still pending: no
-- second ping leaves before the first is settled.
outstanding-run :
    (m : ConnectionMachine) (cs : List Call)
    → tally is_ping (run m cs).1 + outstanding m.pending_ping
      ≡ tally is_settled (run m cs).1 + outstanding (run m cs).0.pending_ping
unfolding run
outstanding-run m [] = unfold tally in omega arith
outstanding-run m (c ∷ cs) =
    let (m', actions) = handle m c.event c.nonce c.clock in
    omega (
      arith,
      tally-append is_ping actions (run m' cs).1,
      tally-append is_settled actions (run m' cs).1,
      outstanding-handle m c.event c.nonce c.clock,
      outstanding-run m' cs,
    )

-- The event brings no answer to the ping `nonce`, and no tick after its timeout.
abbrev IsSilent : ConnectionMachine → ℕ → Instant → Event → Type 0
IsSilent m nonce sent_at (received (pong p)) = p.nonce ≢ nonce
IsSilent m nonce sent_at (tick now) =
    duration_since now sent_at < m.keepalive_interval * pong_timeout_multiplier
IsSilent m nonce sent_at _ = Unit

handle-silent :
    (m : ConnectionMachine) (n sent_at : ℕ) (e : Event) (nonce clock : ℕ)
    → m.phase ≡ ready
    → m.pending_ping ≡ some (n, sent_at)
    → IsSilent m n sent_at e
    → ((handle m e nonce clock).0 ≡ m)
      × (tally is_ping (handle m e nonce clock).1 ≡ 0)
      × (tally is_settled (handle m e nonce clock).1 ≡ 0)
unfolding handle tally
handle-silent m n sent_at (received (handshake x)) nonce clock h p s = ground arith
handle-silent m n sent_at (received (ping x)) nonce clock h p s = ground arith
handle-silent m n sent_at (received (pong x)) nonce clock h p s = ground arith
handle-silent m n sent_at (received (clipboard x)) nonce clock h p s = ground arith
handle-silent m n sent_at (tick now) nonce clock h p s = ground arith
handle-silent m n sent_at _ nonce clock h p s = ground arith

run-silent :
    (m : ConnectionMachine) (n sent_at : ℕ) (cs : List Call)
    → m.phase ≡ ready
    → m.pending_ping ≡ some (n, sent_at)
    → All (λ c. IsSilent m n sent_at c.event) cs
    → ((run m cs).0 ≡ m) × (tally is_ping (run m cs).1 ≡ 0) × (tally is_settled (run m cs).1 ≡ 0)
unfolding run
run-silent m n sent_at [] h p s = (refl, unfold tally in refl, unfold tally in refl)
run-silent m n sent_at (c ∷ cs) h p s =
    let (same, pings, settled) = handle-silent m n sent_at c.event c.nonce c.clock h p s.0 in
    let (same', pings', settled') = run-silent m n sent_at cs h p s.1 in
    let actions : List Action = (handle m c.event c.nonce c.clock).1 in
    rw same (
      same',
      omega (arith, tally-append is_ping actions (run m cs).1),
      omega (arith, tally-append is_settled actions (run m cs).1),
    )

-- While a ping is unanswered and its timeout has not come, ticks, strange pongs and all other traffic
-- change nothing and send no further ping; the first tick at or after three intervals gives the
-- connection up, with that one action.
pub silent_peer_times_out :
    (m : ConnectionMachine) (n sent_at : ℕ) (cs : List Call) (now nonce clock : ℕ)
    → m.phase ≡ ready
    → m.pending_ping ≡ some (n, sent_at)
    → All (λ c. IsSilent m n sent_at c.event) cs
    → m.keepalive_interval * pong_timeout_multiplier ≤ duration_since now sent_at
    → ((run m cs).0 ≡ m)
      × (tally is_ping (run m cs).1 ≡ 0)
      × (tally is_settled (run m cs).1 ≡ 0)
      × (handle (run m cs).0 (tick now) nonce clock
          ≡ (record m { pending_ping = none }, keepalive_timed_out ∷ []))
silent_peer_times_out m n sent_at cs now nonce clock h p s late =
    let (same, pings, settled) = run-silent m n sent_at cs h p s in
    (same, pings, settled, rw same (unfold handle in ground arith))
