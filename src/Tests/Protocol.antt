-- ===== src/Tests/Protocol.antt =====
-- Runs of the protocol core.
use penguinsync.Base.{
  ◌<◌, ◌≡◌, ◌⊎◌, refl, Bytes, Str, str, List, [], ◌∷◌, none, some, arith, All, IsArray, replicate,
}
use penguinsync.Base.Result.{ok}
use penguinsync.Base.Time.{from_secs, duration_since}
use penguinsync.Base.Addr.{octets, v6}
use penguinsync.Base.Addr
use penguinsync.Protocol.Clip.{Clip, mime_text_plain}
use penguinsync.Protocol.Hex.{device_id_len, token_len}
use penguinsync.Protocol.Message.{handshake, pong, clipboard, Handshake}
use penguinsync.Protocol.Pairing.{issue, token_ttl}
use penguinsync.Protocol.Pairing.SingleUse.{Attempt, successes, issue_single_use}
use penguinsync.Protocol.Qr.{QrPayload, encode_qr_uri, decode_qr_uri}
use penguinsync.Protocol.Qr.RoundTrip.{IsPayload, as_printed, decode-encode_qr_uri}
use penguinsync.Protocol.Connection.{
  ConnectionMachine, LocalIdentity, Call, received, tick, send_clipboard, started, run, tally,
  handle, ready, awaiting_peer_handshake, keepalive_timed_out,
}
use penguinsync.Protocol.Connection.Handshakes.{run-awaiting, IsEarly}
use penguinsync.Protocol.Connection.Keepalive.{silent_peer_times_out, is_ping, is_settled}
use penguinsync.Tests.Crates.{replicate-IsArray, plain_url, plain_addrs}

abbrev pub desk_id : Bytes
desk_id = replicate 32 7

abbrev pub phone_id : Bytes
phone_id = replicate 32 9

abbrev pub a_token : Bytes
a_token = replicate 16 5

pub desk_id-IsArray : IsArray device_id_len desk_id
desk_id-IsArray = replicate-IsArray 32 7 (omega arith)

pub phone_id-IsArray : IsArray device_id_len phone_id
phone_id-IsArray = replicate-IsArray 32 9 (omega arith)

pub a_token-IsArray : IsArray token_len a_token
a_token-IsArray = replicate-IsArray 16 5 (omega arith)

abbrev pub desk : LocalIdentity
desk = record { device_id = desk_id; name = str "desk"; capabilities = [] }

abbrev pub phone : LocalIdentity
phone = record { device_id = phone_id; name = str "phone"; capabilities = [] }

abbrev pub a_clip : Clip
a_clip = record { mime = mime_text_plain; content = str "hello"; hash = str "hello" }

abbrev pub a_fresh : ConnectionMachine
a_fresh = record {
  phase = awaiting_peer_handshake;
  local = desk;
  outgoing_pairing_token = none;
  keepalive_interval = from_secs 10;
  last_ping_sent = none;
  pending_ping = none;
  next_nonce = 0;
}

abbrev pub other_version : Handshake
other_version = record {
  version = 2;
  device_id = phone_id;
  name = str "phone";
  capabilities = [];
  pairing_token = none;
}

abbrev early_calls : List Call
early_calls =
    record { event = started; nonce = 1; clock = 0 }
    ∷ record { event = send_clipboard a_clip; nonce = 2; clock = 0 }
    ∷ record { event = received (handshake other_version); nonce = 3; clock = 0 }
    ∷ record { event = received (clipboard a_clip); nonce = 4; clock = 0 }
    ∷ []

run-awaiting_example :
    ((run a_fresh early_calls).0 ≡ a_fresh) × All (IsEarly a_fresh) (run a_fresh early_calls).1
run-awaiting_example =
    run-awaiting a_fresh early_calls refl
      ((λ h. h), ((λ h. h), ((λ (h : 2 ≡ 1). absurd (omega arith)), ((λ h. h), tt))))

abbrev waiting_machine : ConnectionMachine
waiting_machine = record a_fresh {
  phase = ready;
  last_ping_sent = some 5;
  pending_ping = some (42, 5);
}

abbrev silent_calls : List Call
silent_calls =
    record { event = received (pong (record { nonce = 41 })); nonce = 1; clock = 6 }
    ∷ record { event = send_clipboard a_clip; nonce = 2; clock = 7 }
    ∷ []

silent_peer_times_out_example :
    ((run waiting_machine silent_calls).0 ≡ waiting_machine)
    × (tally is_ping (run waiting_machine silent_calls).1 ≡ 0)
    × (tally is_settled (run waiting_machine silent_calls).1 ≡ 0)
    × (handle (run waiting_machine silent_calls).0 (tick (from_secs 40)) 1 2
        ≡ (record waiting_machine { pending_ping = none }, keepalive_timed_out ∷ []))
silent_peer_times_out_example =
    silent_peer_times_out waiting_machine 42 5 silent_calls (from_secs 40) 1 2 refl refl
      ((λ (h : 41 ≡ 42). absurd (omega arith)), (tt, tt)) (omega arith)

abbrev two_tries : List Attempt
two_tries =
    record { presented = a_token; at = from_secs 30 }
    ∷ record { presented = a_token; at = from_secs 31 }
    ∷ []

issue_single_use_example :
    (successes (issue a_token 0) two_tries ≡ [])
    ⊎ ((a : Attempt) × (successes (issue a_token 0) two_tries ≡ a ∷ [])
        × (a.presented ≡ a_token)
        × (duration_since a.at 0 < token_ttl))
issue_single_use_example = issue_single_use a_token 0 two_tries

abbrev a_payload : QrPayload
a_payload = record {
  version = 1;
  device_id = desk_id;
  name = str "desk";
  addrs =
      Addr.new (octets 192 168 1 7) 47
      ∷ record { ip = v6 1; port = 47; flowinfo = 5; scope_id = 2 }
      ∷ [];
  token = a_token;
}

a_payload-IsPayload : IsPayload a_payload
a_payload-IsPayload = record {
  version_u16 = omega arith;
  id_array = desk_id-IsArray;
  token_array = a_token-IsArray;
}

decode-encode_qr_uri_example :
    (uri : Str) × (encode_qr_uri plain_url plain_addrs a_payload ≡ some uri)
    × (decode_qr_uri plain_url plain_addrs uri ≡ ok (as_printed a_payload))
decode-encode_qr_uri_example =
    decode-encode_qr_uri plain_url plain_addrs a_payload a_payload-IsPayload
