-- ===== src/Tests/Net.antt =====
-- Runs of the connection's network side.
use penguinsync.Base.{
  length, drop, ◌≡◌, refl, Bytes, str, true, false, List, [], ◌∷◌, ◌++◌, Option, none, some, arith,
  All, bytes_key,
}
use penguinsync.Base.Result.{ok}
use penguinsync.Protocol.Message.{encode, decode}
use penguinsync.Protocol.Connection.{handle, own_handshake}
use penguinsync.Protocol.Connection
use penguinsync.Net.Framing
use penguinsync.Net.Session
use penguinsync.Net.Framing.{
  write_message, write_frame, read_message, to_le_bytes, max_frame_len, u32_max, frame_too_large,
}
use penguinsync.Net.Session.Dropping.{read-dropped}
use penguinsync.Net.Session.{
  SessionEvent, CloseReason, Drive, framing_error, closed, connection_lost, drain, Status, ended,
  running, Branch, read_ready, ticked, connection_closed, drive, start, feed, spawned, round,
  run_actions, after_write,
}
use penguinsync.Net.Session.Closing.{IsLive, session_closes}
use penguinsync.Net.Session.Order.{IsPolite, session-IsPolite}
use penguinsync.Net.Dialer.{Round, dial}
use penguinsync.Net.Dialer
use penguinsync.Net.Dialer.Schedule.{obeys, dial-in_order, dial-token}
use penguinsync.Tests.Crates.{
  pings, bytes_quic, plain_link, packed, to_vec, from_vec, unpack, read_bytes,
}
use penguinsync.Tests.Protocol.{desk, phone, phone_id, a_token}

abbrev ping_frame : Bytes
ping_frame = 2 ∷ 0 ∷ 0 ∷ 0 ∷ 0 ∷ 7 ∷ []

-- The phone's handshake; its first four bytes name a length of more than 100 MiB.
abbrev greeting : Bytes
greeting = 2 ∷ 1 ∷ packed phone_id (str "phone")

abbrev waiting_drive : Drive plain_link
waiting_drive = spawned plain_link desk 10 none [] (to_le_bytes (length greeting) ++ greeting)

read-dropped_example :
    let after = drive plain_link waiting_drive (ticked 5 1 4 ∷ read_ready 2 6 ∷ []) in
    ((r : Bytes) × (read_message pings bytes_quic waiting_drive.recv
        ≡ ok (own_handshake (Connection.new phone 10 none), r))
      × (r ≡ []))
    × (after.events ≡ closed (framing_error (str "framing")) ∷ [])
    × (after.close_code ≡ some 1)
    × (after.status ≡ ended)
unfolding spawned Connection.new own_handshake encode to_vec to_le_bytes handle Connection.on_tick
read-dropped_example =
    read-dropped plain_link waiting_drive (own_handshake (Connection.new phone 10 none)) greeting
      (drop 4 greeting) [] 153092354 1 2 5 6 refl refl (omega arith) refl (omega arith)
      (omega arith) refl refl

abbrev lost : List (Branch plain_link)
lost = read_ready 1 2 ∷ connection_closed (str "reset") ∷ []

session_closes_example :
    let events = (drive plain_link (start plain_link desk 10 none [] ping_frame 1 2) lost).events in
    (init : List SessionEvent) × (reason : CloseReason) × (events ≡ init ++ closed reason ∷ [])
    × All IsLive init
    × (drain events ≡ (events, some reason))
unfolding drive start feed run_actions handle write_message encode to_vec spawned Connection.new
    write_frame round read_message read_bytes Framing.read_body Framing.from_le_bytes decode
    to_le_bytes after_write Session.on_command Session.on_read Connection.check_pong
    Connection.on_handshake Connection.on_pong Connection.on_received Connection.on_send_clipboard
    Connection.on_tick own_handshake Connection.ping_when_due from_vec unpack
session_closes_example = session_closes plain_link desk 10 none [] ping_frame 1 2 lost refl

session-IsPolite_example :
    IsPolite false (drive plain_link (start plain_link desk 10 none [] ping_frame 1 2) lost).events
session-IsPolite_example = session-IsPolite plain_link desk 10 none [] ping_frame 1 2 lost

abbrev two_rounds : List Round
two_rounds =
    record { outcome = none; at_connected = true; at_check = true; at_reconnecting = true }
    ∷ record {
      outcome = some (3, closed (connection_lost []) ∷ []);
      at_connected = true;
      at_check = true;
      at_reconnecting = true;
    }
    ∷ []

dial-in_order_example : obeys 0 false (dial (Dialer.start (some a_token)) two_rounds).1 ≡ true
dial-in_order_example = dial-in_order (some a_token) two_rounds

abbrev failed_round : Round
failed_round = record {
  outcome = none;
  at_connected = true;
  at_check = true;
  at_reconnecting = true;
}

dial-token_example :
    (later : List (Option Bytes)) × ((dial
        (Dialer.start (some a_token))
        (failed_round ∷ two_rounds)).0.presented
      ≡ some a_token ∷ later)
    × All (λ t. t ≡ none) later
dial-token_example = dial-token (some a_token) failed_round two_rounds
