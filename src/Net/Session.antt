-- ===== src/Net/Session.antt =====
-- crates/net/src/session.rs: one connection's control stream and the task that drives it.
pub mod Drain
pub mod Opening
pub mod Meeting
pub mod Carrying
pub mod Dropping
pub mod Closing
pub mod Order
use penguinsync.Base.{ℕ, Bytes, Str, Bool, true, false, List, [], ◌∷◌, ◌++◌, Option, none, some}
use penguinsync.Base.Result.{Result, ok, err}
use penguinsync.Base.Time.{Instant, Duration}
use penguinsync.Protocol.Clip.{Clip}
use penguinsync.Protocol.Message.{Message, Postcard}
use penguinsync.Protocol.Connection.{
  ConnectionMachine, LocalIdentity, Event, started, received, tick, send_clipboard, Action, send,
  PeerHandshake, peer_handshake, ponged, peer_clipboard, keepalive_timed_out, reject,
  version_mismatch, handle,
}
use penguinsync.Protocol.Connection
use penguinsync.Net.Transport.{Quic}
use penguinsync.Net.Framing.{Framing, read, write_message, read_message}

pub data CloseReason : Type 0 where
  version_mismatch_closed : (ours theirs : ℕ) → CloseReason
  keepalive_timed_out_closed : CloseReason
  connection_lost : Str → CloseReason
  framing_error : Str → CloseReason

pub data SessionEvent : Type 0 where
  peer_handshake_event : PeerHandshake → SessionEvent
  ponged_event : Duration → SessionEvent
  clipboard_received : Clip → SessionEvent
  closed : CloseReason → SessionEvent

-- Whether the driving task goes on, has returned, or has died in a panic.
pub data Status : Type 0 where
  running ended panicked : Status

-- The part of `Session::drain` that sees the queue of events: what the callback is given, and the
-- reason that is returned.
unfoldable pub drain : List SessionEvent → List SessionEvent × Option CloseReason
drain [] = ([], none)
drain (closed r ∷ rest) = (closed r ∷ [], some r)
drain (e ∷ rest) = let (seen, reason) = drain rest in (e ∷ seen, reason)

-- What the task is built on: the codec, the streams, and the texts of their errors.
pub record Link : Type 1 where
  pub postcard : Postcard
  pub quic : Quic
  pub framing_text : Framing postcard quic → Str
  pub read_text : quic.ReadError → Str

module _ (link : Link) where
  open link use {postcard, quic, framing_text, read_text}
  open quic use {SendStream, RecvStream, abandon}

  pub record Ran : Type 0 where
    pub status : Status
    pub send : SendStream
    pub events : List SessionEvent

  abbrev close : CloseReason → SendStream → List SessionEvent → Ran
  close r s events = record { status = ended; send = s; events = events ++ closed r ∷ [] }

  unfoldable pub after_write :
      Option (Result (Framing postcard quic) SendStream)
      → SendStream
      → List SessionEvent
      → (SendStream → Ran)
      → Ran
  after_write none s events next = record { status = panicked; send = s; events = events }
  after_write (some (err e)) s events next = close (framing_error (framing_text e)) s events
  after_write (some (ok s')) s events next = next s'

  -- `events` is what has been sent on the channel so far.
  unfoldable pub run_actions : List Action → SendStream → List SessionEvent → Ran
  unfolding after_write
  run_actions [] s events = record { status = running; send = s; events = events }
  run_actions (send msg ∷ rest) s events =
      after_write (write_message postcard quic s msg) s events (λ s'. run_actions rest s' events)
  run_actions (peer_handshake p ∷ rest) s events =
      run_actions rest s (events ++ peer_handshake_event p ∷ [])
  run_actions (ponged rtt ∷ rest) s events = run_actions rest s (events ++ ponged_event rtt ∷ [])
  run_actions (peer_clipboard clip ∷ rest) s events =
      run_actions rest s (events ++ clipboard_received clip ∷ [])
  run_actions (keepalive_timed_out ∷ rest) s events = close keepalive_timed_out_closed s events
  run_actions (reject (version_mismatch ours theirs) ∷ rest) s events =
      close (version_mismatch_closed ours theirs) s events

  -- The variables of `drive`; `close_code` is what `connection.close` was called with.
  pub record Drive : Type 0 where
    pub machine : ConnectionMachine
    pub send : SendStream
    pub recv : RecvStream
    pub commands_open : Bool
    pub events : List SessionEvent
    pub close_code : Option ℕ
    pub status : Status

  -- The branch of `select!` that completes. Any branch but the read drops the read that was under way,
  -- which may have `taken` some bytes by then.
  pub data Branch : Type 0 where
    read_ready : (nonce : ℕ) (clock : Instant) → Branch
    ticked : (now : Instant) (nonce : ℕ) (taken : ℕ) → Branch
    commanded : Option Clip → (nonce : ℕ) (clock : Instant) (taken : ℕ) → Branch
    connection_closed : Str → Branch

  abbrev after : Drive → ConnectionMachine → Ran → Drive
  after d m r = record d { machine = m; send = r.send; events = r.events; status = r.status }

  unfoldable pub feed : Drive → Event → ℕ → Instant → Drive
  feed d e nonce clock =
      let (m, actions) = handle d.machine e nonce clock in
      after d m (run_actions actions d.send d.events)

  -- The variables with which `Session::spawn` calls `drive`.
  unfoldable pub spawned : LocalIdentity → Duration → Option Bytes → SendStream → RecvStream → Drive
  spawned local interval token s r = record {
    machine = Connection.new local interval token;
    send = s;
    recv = r;
    commands_open = true;
    events = [];
    close_code = none;
    status = running;
  }

  -- The first line of `drive`.
  unfoldable pub start :
      LocalIdentity → Duration → Option Bytes → SendStream → RecvStream → ℕ → Instant → Drive
  start local interval token s r nonce clock =
      feed (spawned local interval token s r) started nonce clock

  abbrev finish_with : Drive → CloseReason → Option ℕ → Drive
  finish_with d r code = record d {
    events = d.events ++ closed r ∷ [];
    close_code = code;
    status = ended;
  }

  unfoldable pub on_read :
      Drive → Result (Framing postcard quic) (Message × RecvStream) → ℕ → Instant → Drive
  on_read d (ok (msg, r)) nonce clock = feed (record d { recv = r }) (received msg) nonce clock
  on_read d (err (read e)) nonce clock = finish_with d (connection_lost (read_text e)) d.close_code
  on_read d (err e) nonce clock = finish_with d (framing_error (framing_text e)) (some 1)

  unfoldable pub on_command : Drive → Bool → Option Clip → ℕ → Instant → ℕ → Drive
  on_command d true (some clip) nonce clock taken =
      feed (record d { recv = abandon d.recv taken }) (send_clipboard clip) nonce clock
  on_command d true none nonce clock taken = record d {
    recv = abandon d.recv taken;
    commands_open = false;
  }
  -- the branch is disabled
  on_command d false command nonce clock taken = d

  -- One round of the loop.
  unfoldable pub round : Drive → Branch → Drive
  unfolding on_read on_command feed
  round d (read_ready nonce clock) = on_read d (read_message postcard quic d.recv) nonce clock
  round d (ticked now nonce taken) =
      feed (record d { recv = abandon d.recv taken }) (tick now) nonce now
  round d (commanded command nonce clock taken) =
      on_command d d.commands_open command nonce clock taken
  round d (connection_closed reason) = finish_with d (connection_lost reason) d.close_code

  -- The loop, until the task returns.
  unfoldable pub drive : Drive → List Branch → Drive
  drive d [] = d
  drive d (b ∷ rest) = elim d.status [ running ↦ drive (round d b) rest | _ ↦ d ]
