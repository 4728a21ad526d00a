-- ===== src/Net/Session/Closing.antt =====
-- How a session ends: with one closing event, which comes last.
use penguinsync.Base.{
  ℕ, ◌≡◌, refl, List, [], ◌∷◌, ◌++◌, Option, none, some, All, All-append, Bytes, Bool, true, false,
}
use penguinsync.Base.Result.{Result, ok, err}
use penguinsync.Base.Time.{Duration}
use penguinsync.Protocol.Clip.{Clip}
use penguinsync.Protocol.Message.{Message}
use penguinsync.Protocol.Connection.{
  LocalIdentity, Action, send, peer_handshake, ponged, peer_clipboard, keepalive_timed_out, reject,
  version_mismatch, Event, started, tick, send_clipboard, handle,
}
use penguinsync.Net.Framing.{
  Framing, frame_too_large, write, read, decoding, write_message, read_message,
}
use penguinsync.Net.Session.{
  Link, Status, running, ended, panicked, CloseReason, SessionEvent, peer_handshake_event,
  ponged_event, clipboard_received, closed, drain, Drive, Branch, read_ready, ticked, commanded,
  connection_closed, Ran, spawned, after_write, run_actions, start, feed, on_read, on_command,
  round, drive,
}
use penguinsync.Net.Session.Drain.{drive_induction}

abbrev pub IsLive : SessionEvent → Type 0
IsLive (closed r) = ⊥
IsLive _ = Unit

-- No closing event while the task runs; one, at the end, once it has returned.
abbrev IsOrderly : Status → List SessionEvent → Type 0
IsOrderly ended events =
    (init : List SessionEvent) × (r : CloseReason) × (events ≡ init ++ closed r ∷ [])
    × All IsLive init
IsOrderly _ events = All IsLive events

drain-closed :
    (init : List SessionEvent) (r : CloseReason)
    → All IsLive init
    → drain (init ++ closed r ∷ []) ≡ (init ++ closed r ∷ [], some r)
unfolding drain
drain-closed [] r h = refl
drain-closed (peer_handshake_event p ∷ init) r h = rw (drain-closed init r h.1)
drain-closed (ponged_event p ∷ init) r h = rw (drain-closed init r h.1)
drain-closed (clipboard_received p ∷ init) r h = rw (drain-closed init r h.1)
drain-closed (closed p ∷ init) r h = absurd h.0

module _ (link : Link) where
  open link use {postcard, quic}

  after_write-IsOrderly :
      (w : Option (Result (Framing postcard quic) quic.SendStream)) (s : quic.SendStream)
      (events : List SessionEvent) (next : quic.SendStream → Ran link)
      → All IsLive events
      → ((s' : quic.SendStream) → IsOrderly (next s').status (next s').events)
      → IsOrderly
          (after_write link w s events next).status
          (after_write link w s events next).events
  unfolding after_write
  after_write-IsOrderly none s events next h k = h
  after_write-IsOrderly (some (err e)) s events next h k = (events, _, refl, h)
  after_write-IsOrderly (some (ok s')) s events next h k = k s'

  run_actions-IsOrderly :
      (actions : List Action) (s : quic.SendStream) (events : List SessionEvent)
      → All IsLive events
      → IsOrderly
          (run_actions link actions s events).status
          (run_actions link actions s events).events
  unfolding run_actions
  run_actions-IsOrderly [] s events h = h
  run_actions-IsOrderly (send msg ∷ rest) s events h =
      after_write-IsOrderly (write_message postcard quic s msg) s events _ h
        (λ s'. run_actions-IsOrderly rest s' events h)
  run_actions-IsOrderly (peer_handshake p ∷ rest) s events h =
      run_actions-IsOrderly rest s (events ++ peer_handshake_event p ∷ [])
        (All-append IsLive events _ h (tt, tt))
  run_actions-IsOrderly (ponged p ∷ rest) s events h =
      run_actions-IsOrderly rest s (events ++ ponged_event p ∷ [])
        (All-append IsLive events _ h (tt, tt))
  run_actions-IsOrderly (peer_clipboard p ∷ rest) s events h =
      run_actions-IsOrderly rest s (events ++ clipboard_received p ∷ [])
        (All-append IsLive events _ h (tt, tt))
  run_actions-IsOrderly (keepalive_timed_out ∷ rest) s events h = (events, _, refl, h)
  run_actions-IsOrderly (reject (version_mismatch ours theirs) ∷ rest) s events h =
      (events, _, refl, h)

  -- Within a task: what its status and its events are.
  abbrev Orderly : Drive link → Type 0
  Orderly d = IsOrderly d.status d.events

  feed-IsOrderly :
      (d : Drive link) (e : Event) (nonce clock : ℕ)
      → All IsLive d.events
      → Orderly (feed link d e nonce clock)
  unfolding feed
  feed-IsOrderly d e nonce clock h =
      run_actions-IsOrderly (handle d.machine e nonce clock).1 d.send d.events h

  on_read-IsOrderly :
      (d : Drive link) (r : Result (Framing postcard quic) (Message × quic.RecvStream))
      (nonce clock : ℕ)
      → All IsLive d.events
      → Orderly (on_read link d r nonce clock)
  unfolding on_read
  on_read-IsOrderly d (ok (msg, r)) nonce clock h = feed-IsOrderly _ _ nonce clock h
  on_read-IsOrderly d (err (read e)) nonce clock h = (d.events, _, refl, h)
  on_read-IsOrderly d (err (write e)) nonce clock h = (d.events, _, refl, h)
  on_read-IsOrderly d (err (decoding e)) nonce clock h = (d.events, _, refl, h)
  on_read-IsOrderly d (err (frame_too_large e)) nonce clock h = (d.events, _, refl, h)

  live :
      (s : Status) (events : List SessionEvent)
      → s ≡ running
      → IsOrderly s events
      → All IsLive events
  live running events e h = h
  live ended events e h = cc
  live panicked events e h = h

  on_command-IsOrderly :
      (d : Drive link) (b : Bool) (c : Option Clip) (nonce clock taken : ℕ)
      → d.status ≡ running
      → Orderly d
      → Orderly (on_command link d b c nonce clock taken)
  unfolding on_command
  on_command-IsOrderly d true (some clip) nonce clock taken e h =
      feed-IsOrderly (record d { recv = quic.abandon d.recv taken }) (send_clipboard clip) nonce
        clock (live d.status d.events e h)
  on_command-IsOrderly d true none nonce clock taken e h = h
  on_command-IsOrderly d false c nonce clock taken e h = h

  round-IsOrderly :
      (d : Drive link) (b : Branch link) → d.status ≡ running → Orderly d → Orderly (round link d b)
  unfolding round
  round-IsOrderly d (read_ready nonce clock) e h =
      on_read-IsOrderly d (read_message postcard quic d.recv) nonce clock
        (live d.status d.events e h)
  round-IsOrderly d (ticked now nonce taken) e h =
      feed-IsOrderly (record d { recv = quic.abandon d.recv taken }) (tick now) nonce now
        (live d.status d.events e h)
  round-IsOrderly d (commanded c nonce clock taken) e h =
      on_command-IsOrderly d d.commands_open c nonce clock taken e h
  round-IsOrderly d (connection_closed reason) e h = (d.events, _, refl, live d.status d.events e h)

  session-IsOrderly :
      (local : LocalIdentity) (interval : Duration) (token : Option Bytes) (s : quic.SendStream)
      (r : quic.RecvStream) (nonce clock : ℕ) (bs : List (Branch link))
      → Orderly (drive link (start link local interval token s r nonce clock) bs)
  unfolding start
  session-IsOrderly local interval token s r nonce clock bs =
      drive_induction link Orderly round-IsOrderly _ bs (
        feed-IsOrderly (spawned link local interval token s r) started nonce clock
          (unfold spawned in tt))

  -- Whatever the network, the clock and the callers do: when the task of a session has returned, its
  -- channel holds events that are no closing events and one closing event behind them, and `drain`
  -- hands over all of them and returns that event's reason.
  pub session_closes :
      (local : LocalIdentity) (interval : Duration) (token : Option Bytes) (s : quic.SendStream)
      (r : quic.RecvStream) (nonce clock : ℕ) (bs : List (Branch link))
      → (drive link (start link local interval token s r nonce clock) bs).status ≡ ended
      → let events = (drive link (start link local interval token s r nonce clock) bs).events in
        (init : List SessionEvent) × (reason : CloseReason) × (events ≡ init ++ closed reason ∷ [])
        × All IsLive init
        × (drain events ≡ (events, some reason))
  session_closes local interval token s r nonce clock bs e =
      let d = drive link (start link local interval token s r nonce clock) bs in
      go d.status d.events e (session-IsOrderly local interval token s r nonce clock bs)
    where
      go :
          (st : Status) (events : List SessionEvent)
          → st ≡ ended
          → IsOrderly st events
          → (init : List SessionEvent) × (reason : CloseReason) × (events
              ≡ init ++ closed reason ∷ [])
            × All IsLive init
            × (drain events ≡ (events, some reason))
      go running events e h = cc
      go panicked events e h = cc
      go ended events e (init, reason, shape, h) =
          (init, reason, shape, h, rw shape (drain-closed init reason h))
