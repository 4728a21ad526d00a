-- ===== src/Net/Session/Order.antt =====
-- In what order a session reports things: the peer's handshake first, and once.
use penguinsync.Base.{
  ℕ, ◌≡◌, refl, ◌∙◌, List, [], ◌∷◌, ◌++◌, Option, none, some, arith, Bytes, Bool, true, false,
}
use penguinsync.Base.Result.{Result, ok, err}
use penguinsync.Base.Time.{Duration}
use penguinsync.Protocol.Clip.{Clip}
use penguinsync.Protocol.Message.{Message, handshake, ping, pong, clipboard}
use penguinsync.Protocol.Connection.{
  LocalIdentity, Action, send, peer_handshake, ponged, peer_clipboard, keepalive_timed_out, reject,
  version_mismatch, Event, started, received, tick, send_clipboard, handle, Phase,
  awaiting_peer_handshake, ready, ConnectionMachine, new,
}
use penguinsync.Net.Framing.{
  Framing, frame_too_large, write, read, decoding, write_message, read_message,
}
use penguinsync.Net.Session.{
  Link, running, ended, CloseReason, SessionEvent, peer_handshake_event, ponged_event,
  clipboard_received, closed, Drive, Branch, read_ready, ticked, commanded, connection_closed, Ran,
  after_write, run_actions, spawned, start, feed, on_read, on_command, round, drive,
}
use penguinsync.Net.Session.Drain.{drive_induction}

abbrev is_ready : Phase → Bool
is_ready awaiting_peer_handshake = false
is_ready ready = true

-- What may come next, where the flag says whether the peer's handshake has come.
abbrev Admits : Bool → Action → Type 0
Admits g (peer_handshake p) = g ≡ false
Admits g (peer_clipboard c) = g ≡ true
Admits g (ponged rtt) = g ≡ true
Admits g _ = Unit

abbrev next : Bool → Action → Bool
next g (peer_handshake p) = true
next g _ = g

abbrev AdmitsAll : Bool → List Action → Type 0
AdmitsAll g [] = Unit
AdmitsAll g (a ∷ rest) = Admits g a × AdmitsAll (next g a) rest

abbrev next_all : Bool → List Action → Bool
next_all g [] = g
next_all g (a ∷ rest) = next_all (next g a) rest

handle-Admits :
    (m : ConnectionMachine) (e : Event) (nonce clock : ℕ)
    → AdmitsAll (is_ready m.phase) (handle m e nonce clock).1
      × (next_all (is_ready m.phase) (handle m e nonce clock).1
          ≡ is_ready (handle m e nonce clock).0.phase)
unfolding handle
handle-Admits m (received (handshake x)) nonce clock = ground arith
handle-Admits m (received (ping x)) nonce clock = ground arith
handle-Admits m (received (pong x)) nonce clock = ground arith
handle-Admits m (received (clipboard x)) nonce clock = ground arith
handle-Admits m (tick now) nonce clock = ground arith
handle-Admits m _ nonce clock = ground arith

-- The same of the events that have gone out.
abbrev AdmitsEvent : Bool → SessionEvent → Type 0
AdmitsEvent g (peer_handshake_event p) = g ≡ false
AdmitsEvent g (clipboard_received c) = g ≡ true
AdmitsEvent g (ponged_event rtt) = g ≡ true
AdmitsEvent g (closed r) = Unit

abbrev greets : Bool → SessionEvent → Bool
greets g (peer_handshake_event p) = true
greets g _ = g

-- The handshake is reported at most once, and nothing of the peer before it.
abbrev pub IsPolite : Bool → List SessionEvent → Type 0
IsPolite g [] = Unit
IsPolite g (e ∷ rest) = AdmitsEvent g e × IsPolite (greets g e) rest

abbrev greeted : Bool → List SessionEvent → Bool
greeted g [] = g
greeted g (e ∷ rest) = greeted (greets g e) rest

IsPolite-snoc :
    (g : Bool) (events : List SessionEvent) (e : SessionEvent)
    → IsPolite g events
    → AdmitsEvent (greeted g events) e
    → IsPolite g (events ++ e ∷ [])
IsPolite-snoc g [] e h a = (a, tt)
IsPolite-snoc g (x ∷ rest) e h a = (h.0, IsPolite-snoc (greets g x) rest e h.1 a)

greeted-snoc :
    (g : Bool) (events : List SessionEvent) (e : SessionEvent)
    → greeted g (events ++ e ∷ []) ≡ greets (greeted g events) e
greeted-snoc g [] e = refl
greeted-snoc g (x ∷ rest) e = greeted-snoc (greets g x) rest e

module _ (link : Link) where
  open link use {postcard, quic}

  -- What a batch of actions leaves, when the flag before it was `g` and would be `g'` after it.
  record Left (g' : Bool) (r : Ran link) : Type 0 where
    polite : IsPolite false r.events
    flag : r.status ≡ running → greeted false r.events ≡ g'

  after_write-Left :
      (w : Option (Result (Framing postcard quic) quic.SendStream)) (s : quic.SendStream)
      (events : List SessionEvent) (next_run : quic.SendStream → Ran link) (g' : Bool)
      → IsPolite false events
      → ((s' : quic.SendStream) → Left g' (next_run s'))
      → Left g' (after_write link w s events next_run)
  unfolding after_write
  after_write-Left none s events next_run g' h k = record { polite = h; flag = λ e. cc }
  after_write-Left (some (err e)) s events next_run g' h k = record {
    polite = IsPolite-snoc false events _ h tt;
    flag = λ e. cc;
  }
  after_write-Left (some (ok s')) s events next_run g' h k = k s'

  run_actions-Left :
      (actions : List Action) (s : quic.SendStream) (events : List SessionEvent) (g : Bool)
      → IsPolite false events
      → greeted false events ≡ g
      → AdmitsAll g actions
      → Left (next_all g actions) (run_actions link actions s events)
  unfolding run_actions
  run_actions-Left [] s events g h e a = record { polite = h; flag = λ _. e }
  run_actions-Left (send msg ∷ rest) s events g h e a =
      after_write-Left (write_message postcard quic s msg) s events _ _ h
        (λ s'. run_actions-Left rest s' events g h e a.1)
  run_actions-Left (peer_handshake p ∷ rest) s events g h e a =
      run_actions-Left rest s (events ++ peer_handshake_event p ∷ []) true
        (IsPolite-snoc false events _ h (e ∙ a.0)) (greeted-snoc false events _) a.1
  run_actions-Left (ponged p ∷ rest) s events g h e a =
      run_actions-Left rest s (events ++ ponged_event p ∷ []) g
        (IsPolite-snoc false events _ h (e ∙ a.0)) (greeted-snoc false events _ ∙ e) a.1
  run_actions-Left (peer_clipboard p ∷ rest) s events g h e a =
      run_actions-Left rest s (events ++ clipboard_received p ∷ []) g
        (IsPolite-snoc false events _ h (e ∙ a.0)) (greeted-snoc false events _ ∙ e) a.1
  run_actions-Left (keepalive_timed_out ∷ rest) s events g h e a = record {
    polite = IsPolite-snoc false events _ h tt;
    flag = λ e'. cc;
  }
  run_actions-Left (reject (version_mismatch ours theirs) ∷ rest) s events g h e a = record {
    polite = IsPolite-snoc false events _ h tt;
    flag = λ e'. cc;
  }

  record Inv (d : Drive link) : Type 0 where
    polite : IsPolite false d.events
    flag : d.status ≡ running → greeted false d.events ≡ is_ready d.machine.phase

  feed-Inv :
      (d : Drive link) (e : Event) (nonce clock : ℕ)
      → d.status ≡ running
      → Inv d
      → Inv (feed link d e nonce clock)
  unfolding feed
  feed-Inv d e nonce clock run h =
      let (m, actions) = handle d.machine e nonce clock in
      let (admitted, after) = handle-Admits d.machine e nonce clock in
      let left =
        run_actions-Left actions d.send d.events (is_ready d.machine.phase) h.polite (h.flag run)
          admitted in
      record { polite = left.polite; flag = λ e'. left.flag e' ∙ after }

  closing-Inv :
      (d : Drive link) (reason : CloseReason) (code : Option ℕ)
      → Inv d
      → Inv
          (record d { events = d.events ++ closed reason ∷ []; close_code = code; status = ended })
  closing-Inv d reason code h = record {
    polite = IsPolite-snoc false d.events _ h.polite tt;
    flag = λ e. cc;
  }

  -- Only the stream or the command flag changes.
  moved :
      (d : Drive link) (r : quic.RecvStream) (b : Bool)
      → Inv d
      → Inv (record d { recv = r; commands_open = b })
  moved d r b h = record { polite = h.polite; flag = h.flag }

  on_read-Inv :
      (d : Drive link) (r : Result (Framing postcard quic) (Message × quic.RecvStream))
      (nonce clock : ℕ)
      → d.status ≡ running
      → Inv d
      → Inv (on_read link d r nonce clock)
  unfolding on_read
  on_read-Inv d (ok (msg, r)) nonce clock run h =
      feed-Inv (record d { recv = r }) (received msg) nonce clock run (moved d r d.commands_open h)
  on_read-Inv d (err (read e)) nonce clock run h = closing-Inv d _ _ h
  on_read-Inv d (err (write e)) nonce clock run h = closing-Inv d _ _ h
  on_read-Inv d (err (decoding e)) nonce clock run h = closing-Inv d _ _ h
  on_read-Inv d (err (frame_too_large e)) nonce clock run h = closing-Inv d _ _ h

  on_command-Inv :
      (d : Drive link) (b : Bool) (c : Option Clip) (nonce clock taken : ℕ)
      → d.status ≡ running
      → Inv d
      → Inv (on_command link d b c nonce clock taken)
  unfolding on_command
  on_command-Inv d true (some clip) nonce clock taken run h =
      feed-Inv (record d { recv = quic.abandon d.recv taken }) (send_clipboard clip) nonce clock run
        (moved d _ d.commands_open h)
  on_command-Inv d true none nonce clock taken run h = moved d _ false h
  on_command-Inv d false c nonce clock taken run h = h

  round-Inv : (d : Drive link) (b : Branch link) → d.status ≡ running → Inv d → Inv (round link d b)
  unfolding round
  round-Inv d (read_ready nonce clock) run h =
      on_read-Inv d (read_message postcard quic d.recv) nonce clock run h
  round-Inv d (ticked now nonce taken) run h =
      feed-Inv (record d { recv = quic.abandon d.recv taken }) (tick now) nonce now run
        (moved d _ d.commands_open h)
  round-Inv d (commanded c nonce clock taken) run h =
      on_command-Inv d d.commands_open c nonce clock taken run h
  round-Inv d (connection_closed reason) run h = closing-Inv d _ _ h

  -- Whatever arrives and in whatever order the branches complete, the events of a session report the
  -- peer's handshake at most once, and no clipboard and no round trip before it.
  pub session-IsPolite :
      (local : LocalIdentity) (interval : Duration) (token : Option Bytes) (s : quic.SendStream)
      (r : quic.RecvStream) (nonce clock : ℕ) (bs : List (Branch link))
      → IsPolite false (drive link (start link local interval token s r nonce clock) bs).events
  unfolding start
  session-IsPolite local interval token s r nonce clock bs =
      (drive_induction link Inv round-Inv _ bs (
        feed-Inv (spawned link local interval token s r) started nonce clock
          (unfold spawned in refl)
          (unfold spawned new in record { polite = tt; flag = λ _. refl }))).polite
