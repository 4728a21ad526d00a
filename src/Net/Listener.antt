-- ===== src/Net/Listener.antt =====
-- crates/net/src/listener.rs: what is done with one incoming connection.
pub mod Order
use penguinsync.Base.{Str, Bool, List, [], ◌∷◌, map, if◌then◌else◌, ℕ, Option, none, some}
use penguinsync.Base.Result.{Result, ok, err}
use penguinsync.Base.Addr.{SocketAddr}
use penguinsync.Net.Session.{SessionEvent, drain}

-- A session's send handle, told apart by a number.
pub record SessionHandle : Type 0 where
  pub remote : SocketAddr
  pub session : ℕ

pub data ListenerEvent : Type 0 where
  connected : SocketAddr → SessionHandle → ListenerEvent
  session : SocketAddr → SessionEvent → ListenerEvent

-- The task of one connection: the accepted session with the events that it will queue, or the error
-- of accepting it, and whether the receiver of `events` is there. The events sent, and the result.
unfoldable pub accept_and_drain :
    Result Str (SocketAddr × ℕ × List SessionEvent)
    → Bool
    → List ListenerEvent × Result Str (Unit {0})
accept_and_drain (err e) receiver = ([], err e)
accept_and_drain (ok (remote, number, queue)) receiver =
    let handle : SessionHandle = record { remote = remote; session = number } in
    if receiver
    then (connected remote handle ∷ map (session remote) (drain queue).0, ok tt)
    else ([], ok tt)

-- What a connection attempt comes to.
abbrev pub Incoming : Type 0
Incoming = Result Str (SocketAddr × ℕ × List SessionEvent)

-- The events that each spawned task sends, for what `accept` gives until the endpoint is closed.
unfoldable pub run : List (Option Incoming) → Bool → List (List ListenerEvent)
run [] receiver = []
run (none ∷ rest) receiver = []
run (some incoming ∷ rest) receiver = (accept_and_drain incoming receiver).0 ∷ run rest receiver

-- Two tasks that send on one channel, each in its own order.
pub data Merge {A : Type 0} : List A → List A → List A → Type 0 where
  nothing : Merge [] [] []
  first : {a : A} {xs ys zs : List A} → Merge xs ys zs → Merge (a ∷ xs) ys (a ∷ zs)
  second : {a : A} {xs ys zs : List A} → Merge xs ys zs → Merge xs (a ∷ ys) (a ∷ zs)

-- All tasks on one channel.
pub data Merged {A : Type 0} : List (List A) → List A → Type 0 where
  no_task : Merged [] []
  task :
      {xs : List A} {tasks : List (List A)} {others channel : List A}
      → Merged tasks others
      → Merge xs others channel
      → Merged (xs ∷ tasks) channel
