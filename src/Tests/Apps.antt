-- ===== src/Tests/Apps.antt =====
-- Runs of the app's core and of the terminal interface.
use penguinsync.Base.{◌≡◌, ◌↔◌, ◌⊎◌, Str, str, Bool, true, List, [], ◌∷◌, none, some, arith}
use penguinsync.Base.Result.{ok, err}
use penguinsync.Base.Addr.{SocketAddr, printed}
use penguinsync.Net.Tls.{pin}
use penguinsync.Net.Session.{closed, keepalive_timed_out_closed, peer_handshake_event}
use penguinsync.Net.Dialer.{DialerEvent, connected, session, reconnecting}
use penguinsync.Daemon.NetAddrs.{candidate_addrs}
use penguinsync.Daemon.Dbus.{start_pairing}
use penguinsync.Daemon.Orchestrator.{redeem_current}
use penguinsync.Ffi.Core.{PenguinSyncCore, pair}
use penguinsync.Ffi.Core.Scan.{pair-start_pairing}
use penguinsync.Cli.Tui.{
  App, PendingConfirmation, Daemon, KeyCode, char, handle_key, confirm_pairing_call,
  should_regenerate, remaining_secs,
}
use penguinsync.Cli.Tui
use penguinsync.Cli.Tui.Confirming.{Confirms, handle_key-Confirms}
use penguinsync.Tests.Crates.{plain_url, plain_addrs}
use penguinsync.Tests.Protocol.{desk_id, desk_id-IsArray, a_token, a_token-IsArray}
use penguinsync.Tests.Daemon.{fresh_daemon, a_peer}

abbrev pub fresh_core : PenguinSyncCore
fresh_core = record {
  trust = record { paired = []; pairing_deadline = none };
  active_session = none;
  peers = record { peers = [] };
  peers_writable = true;
  sent = [];
}

abbrev pub some_events : List DialerEvent
some_events =
    reconnecting 0 5
    ∷ connected 3
    ∷ session (peer_handshake_event a_peer)
    ∷ session (closed keepalive_timed_out_closed)
    ∷ connected 4
    ∷ []

pair-start_pairing_example :
    let (s', shown, fingerprint) =
      start_pairing plain_url plain_addrs fresh_daemon a_token 3
        (candidate_addrs fresh_daemon.listen_addr none) in
    (uri : Str) × (addr : SocketAddr) × (rest : List SocketAddr) × (shown ≡ some uri)
    × (candidate_addrs fresh_daemon.listen_addr none ≡ addr ∷ rest)
    × (pair plain_url plain_addrs fresh_core uri (ok tt) ≡ (
      record fresh_core { trust = pin fresh_core.trust desk_id },
      ok (record { addr = printed addr; token = a_token; device_id = desk_id; name = str "desk" }),
    ))
    × ((redeem_current s'.current_token a_token 5).1 ≡ true)
pair-start_pairing_example =
    pair-start_pairing plain_url plain_addrs fresh_daemon fresh_core a_token 3 5 none
      desk_id-IsArray a_token-IsArray (omega arith)

abbrev a_confirmation : PendingConfirmation
a_confirmation = record { device_id = str "09"; fingerprint = str "0909"; name = str "phone" }

abbrev asked_app : App
asked_app = record Tui.new { confirmation = some a_confirmation }

abbrev a_dbus : Daemon
a_dbus = record { started = err []; unpaired = ok tt; qrcode = λ uri. err [] }

handle_key-Confirms_example :
    ((id : Str)
      → Confirms id true (handle_key asked_app a_dbus (char b'y') 1).calls ↔ (
          (c : PendingConfirmation) × (some a_confirmation ≡ some c)
          × (c.device_id ≡ id)
          × ((char b'y' ≡ char b'y') ⊎ (char b'y' ≡ char b'Y'))))
    × ((c : PendingConfirmation)
        → some a_confirmation ≡ some c
        → ((handle_key asked_app a_dbus (char b'y') 1).running ≡ true)
          × (((handle_key asked_app a_dbus (char b'y') 1).calls ≡ [])
              ⊎ ((accept : Bool) × ((handle_key asked_app a_dbus (char b'y') 1).calls
                    ≡ confirm_pairing_call c.device_id accept ∷ []))))
handle_key-Confirms_example = handle_key-Confirms asked_app a_dbus (char b'y') 1
