-- ===== src/Net/Dialer/Schedule.antt =====
-- The order of the dialer's events and its delays, and which attempt carries the pairing token.
use penguinsync.Base.{
  ℕ, ◌+◌, ◌≡◌, min, refl, Bytes, Bool, true, false, List, [], ◌∷◌, ◌++◌, Option, none, some, map,
  if◌then◌else◌, if-either, All, arith, ◌==◌, ◌&&◌, sym, ◌∙◌,
}
use mathlib.Core.List.{append_assoc, append-nil}
use penguinsync.Protocol.Backoff.{delay, u32_max}
use penguinsync.Net.Session.{SessionEvent, drain}
use penguinsync.Net.Dialer.{
  DialerEvent, connected, session, reconnecting, Round, Dialer, start, take_token, back_off,
  on_outcome, round, dial,
}

-- The events' order: `n` failures in a row so far, and whether a session is being drained. A session's
-- events come after its connection and before the next delay, no connection comes up before the
-- last one's delay, and each delay is that of the number of failures since the last connection.
unfoldable pub obeys : ℕ → Bool → List DialerEvent → Bool
obeys n live [] = true
obeys n live (connected h ∷ rest) = let later = obeys 0 true rest in if live then false else later
obeys n live (session e ∷ rest) = let later = obeys n live rest in if live then later else false
obeys n live (reconnecting a d ∷ rest) =
    (a == n) && (d == delay n) && obeys (min (n + 1) u32_max) false rest

obeys-session :
    (n : ℕ) (queue : List SessionEvent) (rest : List DialerEvent)
    → obeys n true (map session queue ++ rest) ≡ obeys n true rest
unfolding obeys
obeys-session n [] rest = refl
obeys-session n (e ∷ queue) rest = obeys-session n queue rest

-- What follows a round: nothing if the loop has returned.
abbrev Follows : Dialer → List DialerEvent → Type 0
Follows d later =
    (d.returned ≡ true → later ≡ []) × (d.returned ≡ false → obeys d.attempt false later ≡ true)

back_off-obeys :
    (d : Dialer) (r : Round) (live : Bool) (later : List DialerEvent)
    → d.returned ≡ false
    → Follows (back_off d r).0 later
    → obeys d.attempt live ((back_off d r).1 ++ later) ≡ true
unfolding back_off obeys
back_off-obeys d r live later h f = ground arith

on_outcome-obeys :
    (d : Dialer) (r : Round) (o : Option (ℕ × List SessionEvent)) (later : List DialerEvent)
    → d.returned ≡ false
    → Follows (on_outcome d r o).0 later
    → obeys d.attempt false ((on_outcome d r o).1 ++ later) ≡ true
unfolding on_outcome obeys
on_outcome-obeys d r none later h f = back_off-obeys d r false later h f
on_outcome-obeys d r (some (handle, queue)) later h f =
    let seen = map session (drain queue).0 in
    let d0 = record d { attempt = 0 } in
    ground (
      arith,
      append_assoc seen (back_off d0 r).1 later,
      obeys-session 0 (drain queue).0 ((back_off d0 r).1 ++ later),
      back_off-obeys d0 r true later h,
    )

dial-obeys :
    (d : Dialer) (rounds : List Round)
    → d.returned ≡ false
    → obeys d.attempt false (dial d rounds).1 ≡ true
unfolding dial round obeys
dial-obeys d [] h = refl
dial-obeys d (r ∷ rest) h =
    let (d1, events) = round d r in
    let later = (dial d1 rest).1 in
    ground (
      arith,
      append-nil events,
      on_outcome-obeys (take_token d) r r.outcome [] h,
      on_outcome-obeys (take_token d) r r.outcome later h,
      dial-obeys d1 rest,
    )

-- What the dialer sends is in order, whatever the network and its user do: sessions do not overlap, a
-- session's events stand between its connection and the next delay, and the delays follow the
-- number of failures since the last connection.
pub dial-in_order :
    (token : Option Bytes) (rounds : List Round)
    → obeys 0 false (dial (start token) rounds).1 ≡ true
unfolding start
dial-in_order token rounds = dial-obeys (start token) rounds refl

presented-round :
    (d : Dialer) (r : Round)
    → ((round d r).0.presented ≡ d.presented ++ d.pairing_token ∷ [])
      × ((round d r).0.pairing_token ≡ none)
unfolding round on_outcome back_off
presented-round d r = ground arith

-- What the attempts of a run presented: `ts`, then no token.
abbrev IsSpent : List (Option Bytes) → Dialer × List DialerEvent → Type 0
IsSpent ts x =
    (later : List (Option Bytes)) × (x.0.presented ≡ ts ++ later) × All (λ t. t ≡ none) later

dial-IsSpent :
    (d : Dialer) (rounds : List Round) (ts : List (Option Bytes))
    → d.presented ≡ ts
    → d.pairing_token ≡ none
    → IsSpent ts (dial d rounds)
unfolding dial
dial-IsSpent d [] ts e h = ([], e ∙ sym (append-nil ts), tt)
dial-IsSpent d (r ∷ rest) ts e h =
    let d1 = (round d r).0 in
    let same : d1.presented ≡ ts ++ none ∷ [] = (presented-round d r).0 ∙ cc (e, h) in
    let (later, eq, all) = dial-IsSpent d1 rest (ts ++ none ∷ []) same (presented-round d r).1 in
    if-either (IsSpent ts) d1.returned (round d r)
      ((dial d1 rest).0, (round d r).1 ++ (dial d1 rest).1) (none ∷ [], same, (refl, tt))
      (none ∷ later, eq ∙ append_assoc ts (none ∷ []) later, (refl, all))

-- The pairing token goes with the first connection attempt, whatever comes of it; no later attempt
-- presents it.
pub dial-token :
    (token : Option Bytes) (r : Round) (rounds : List Round)
    → (later : List (Option Bytes)) × ((dial (start token) (r ∷ rounds)).0.presented
        ≡ token ∷ later)
      × All (λ t. t ≡ none) later
unfolding dial start
dial-token token r rounds =
    let d1 = (round (start token) r).0 in
    let (same, spent) = presented-round (start token) r in
    if-either (IsSpent (token ∷ [])) d1.returned (round (start token) r)
      ((dial d1 rounds).0, (round (start token) r).1 ++ (dial d1 rounds).1) ([], same, tt)
      (dial-IsSpent d1 rounds (token ∷ []) same spent)
