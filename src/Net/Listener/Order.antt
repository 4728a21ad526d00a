-- ===== src/Net/Listener/Order.antt =====
-- The order of one connection's events on the channel that all connections share.
use penguinsync.Base.{
  ℕ, ◌≡◌, refl, ap, ◌∙◌, subst, true, List, [], ◌∷◌, ◌++◌, some, ite, ◌=?◌, All, map, arith,
}
use penguinsync.Base.Addr.{SocketAddr, addr_key}
use penguinsync.Base.Result.{ok, err}
use penguinsync.Net.Session.{SessionEvent, drain}
use penguinsync.Net.Listener.{
  ListenerEvent, connected, session, Incoming, accept_and_drain, run, Merge, nothing, first, second,
  Merged, no_task, task,
}

abbrev remote_of : ListenerEvent → SocketAddr
remote_of (connected remote handle) = remote
remote_of (session remote event) = remote

-- The events of one remote address.
unfoldable pub only : SocketAddr → List ListenerEvent → List ListenerEvent
only r [] = []
only r (e ∷ rest) = ite (remote_of e =? r) (e ∷ only r rest) (only r rest)

only-Merge :
    (r : SocketAddr) {xs ys zs : List ListenerEvent}
    → Merge xs ys zs
    → Merge (only r xs) (only r ys) (only r zs)
unfolding only
only-Merge r nothing = nothing
only-Merge r (first {a} {xs} {ys} {zs} m) =
    elim (remote_of a =? r)
      as (λ d.
        Merge (ite d (a ∷ only r xs) (only r xs)) (only r ys) (ite d (a ∷ only r zs) (only r zs))) [
          | yes same ↦ first (only-Merge r m)
          | no other ↦ only-Merge r m
        ]
only-Merge r (second {a} {xs} {ys} {zs} m) =
    elim (remote_of a =? r)
      as (λ d.
        Merge (only r xs) (ite d (a ∷ only r ys) (only r ys)) (ite d (a ∷ only r zs) (only r zs))) [
          | yes same ↦ second (only-Merge r m)
          | no other ↦ only-Merge r m
        ]

Merge-left : {xs zs : List ListenerEvent} → Merge xs [] zs → zs ≡ xs
Merge-left nothing = refl
Merge-left (first {a} m) = ap (◌∷◌ a) (Merge-left m)

Merge-right : {ys zs : List ListenerEvent} → Merge [] ys zs → zs ≡ ys
Merge-right nothing = refl
Merge-right (second {a} m) = ap (◌∷◌ a) (Merge-right m)

-- The connection comes from another address, or does not come up.
abbrev IsElsewhere : SocketAddr → Incoming → Type 0
IsElsewhere r (err e) = Unit
IsElsewhere r (ok (remote, number, queue)) = ¬ (remote ≡ r)

only-sessions :
    (r remote : SocketAddr) (events : List SessionEvent)
    → only r (map (session remote) events) ≡ ite (remote =? r) (map (session remote) events) []
unfolding only
only-sessions r remote [] = ground arith
only-sessions r remote (e ∷ rest) = ground (arith, only-sessions r remote rest)

only-own :
    (remote : SocketAddr) (number : ℕ) (queue : List SessionEvent)
    → only remote (accept_and_drain (ok (remote, number, queue)) true).0
      ≡ (accept_and_drain (ok (remote, number, queue)) true).0
unfolding only accept_and_drain
only-own remote number queue = ground (arith, only-sessions remote remote (drain queue).0)

only-other :
    (r : SocketAddr) (i : Incoming) → IsElsewhere r i → only r (accept_and_drain i true).0 ≡ []
unfolding only accept_and_drain
only-other r (err e) h = refl
only-other r (ok (remote, number, queue)) h = ground (arith, only-sessions r remote (drain queue).0)

only-none :
    (r : SocketAddr) (incoming : List Incoming) (channel : List ListenerEvent)
    → All (IsElsewhere r) incoming
    → Merged (run (map some incoming) true) channel
    → only r channel ≡ []
unfolding run only
only-none r [] channel h no_task = refl
only-none r (i ∷ rest) channel h (task {others = others} m order) =
    let mine =
      subst (λ xs. Merge xs (only r others) (only r channel)) (only-other r i h.0)
        (only-Merge r order) in
    Merge-right mine ∙ only-none r rest others h.1 m

-- Whatever order the tasks of the listener's connections run in, the channel gives the events of a
-- connection, if no other has its address, in their order: first that it is up, with its handle, then
-- what its session queued up to its closing, and nothing else from that address.
pub run-in_order :
    (before after : List Incoming) (remote : SocketAddr) (number : ℕ) (queue : List SessionEvent)
    (channel : List ListenerEvent)
    → All (IsElsewhere remote) before
    → All (IsElsewhere remote) after
    → Merged (run (map some (before ++ ok (remote, number, queue) ∷ after)) true) channel
    → only remote channel
      ≡ connected remote (record { remote = remote; session = number })
        ∷ map (session remote) (drain queue).0
unfolding run accept_and_drain
run-in_order [] after remote number queue channel hb ha (task {others = others} m order) =
    let mine =
      subst
        (λ ys.
          Merge (only remote (accept_and_drain (ok (remote, number, queue)) true).0) ys
            (only remote channel))
        (only-none remote after others ha m) (only-Merge remote order) in
    Merge-left mine ∙ only-own remote number queue
run-in_order (i ∷ before) after remote number queue channel hb ha (task {others = others} m order) =
    let mine =
      subst (λ xs. Merge xs (only remote others) (only remote channel)) (only-other remote i hb.0)
        (only-Merge remote order) in
    Merge-right mine ∙ run-in_order before after remote number queue others hb.1 ha m
