-- ===== src/Lib.antt =====
-- PenguinSync: a desktop and a phone that share their clipboards over QUIC, after a pairing by QR code
-- and a human's confirmation.
--
-- The program has a protocol core without input or output (crates/protocol), the network layer
-- (crates/net), the desktop's background daemon (crates/daemon), the core behind the Android app
-- (crates/ffi) and a command line with a terminal interface (crates/cli). A session of crates/net
-- drives the state machine of crates/protocol; the daemon's orchestrator handles the events of its
-- listener's sessions; the app runs the dialer; the terminal interface calls the daemon over D-Bus.
--
-- Protocol.Hex, Message, Clip, Backoff, Pairing, Qr, Connection: crates/protocol/src/message.rs,
--   clipboard.rs, backoff.rs, pairing.rs and connection.rs. `ConnectionMachine::handle` is
--   `Connection.handle`; a call gets the nonce and the clock reading that the code would draw.
-- Net.Transport, Framing, Tls, Identity, Endpoint, Session, Listener, Dialer: crates/net/src/framing.rs,
--   tls.rs, identity.rs, endpoint.rs, session.rs, listener.rs and reconnect.rs. A session's task is
--   `drive` over the sequence of the branches that its `select!` takes; the dialer's loop is `dial` over
--   what each of its rounds meets, and one attempt is `Session.Opening.connect_once`. The listener's
--   tasks share a channel, on which `Listener.Merged` has all their interleavings.
-- Daemon.State, Shared, Clipboard, Dbus, NetAddrs, Orchestrator: the files of those names in
--   crates/daemon/src. `Daemon.World` puts them together: any sequence of events from sessions, turns of
--   the orchestrator, time-outs, D-Bus calls and clipboard changes. While a confirmation is waited for,
--   the orchestrator takes no event, as its `await` has it. There each handler, call and round is one
--   step. `Daemon.Tasks` has them one access at a time, between one lock and the next: any sequence of
--   moves of the orchestrator, of any number of calls and of the clipboard's loop is a run of
--   `Tasks.Ticks`. `Tasks.Alone` and `Tasks.Refines` relate the two.
--   `Daemon.Connections` is about the table of connected devices; `Daemon.Delivery` joins
--   `Net.Session.Carrying`, what one session's commands bring to the other's reads, with the orchestrator;
--   `Daemon.Clipboard.Gnome` has the clipboard's backend, with crates/net/src/clipboard.rs, and
--   `Daemon.Clipboard.Extension` the calls of gnome-extension/extension.js that it makes.
-- Daemon.Config, Start: crates/daemon/src/config.rs and main.rs, up to the point where the service is
--   ready; `Start.main` ends with the shared state that `Daemon.World` goes on from.
-- Ffi.State, Core: crates/ffi/src/state.rs and core.rs; `Core.Opening` is the constructor on a disk;
--   `Core.Whole` joins the app, the two sessions and the daemon in one pairing, and
--   `Core.Hearing` follows the desktop's clipboard to the app.
-- Cli.Qr, Client, Commands, Tui: crates/cli/src/qr.rs, dbus_client.rs, main.rs and tui.rs. A command's
--   outcome is its lines, its calls of the daemon and its result; the interface's loop runs over what
--   its `select!` meets, and `Tui.Drawing` is what the widgets show.
-- Base: shared helpers: tests, lists, keys, maps, texts, results, times, addresses, decimals and files.
--   `Base.Disk` has the files of one directory and sequences of file operations, which an error or a
--   crash may cut off anywhere, a write also in the middle.
-- Tests: concrete runs.
--
-- Numbers are natural numbers; wrap-around and the limits of u16, u32 and u64 are written out where
-- the code can meet them. Instants and durations are unbounded numbers of nanoseconds. A `HashMap` is
-- an association list, in which a key stands once. The loops over a text's characters, a list or a
-- sequence of branches recurse on it, and the two that fill an array recurse on its length.
-- `Base.Trim` strips white space with the text's length as fuel, which is enough since every step
-- shortens the text. The decimal text of a u16 is written with five steps and that of a usize with
-- twenty, which are its digits at most.
--
-- Parameters are what is not in the repository: the codec (postcard), the streams (quinn), the URL
-- type (url), JSON and TOML (serde_json, toml), key pairs and certificates (rcgen, webpki), the text
-- form of socket addresses, the hash functions, the QR encoder, and GNOME Shell's selection with
-- JavaScript's decoder of texts. Their laws are fields of the records that bundle them: what is
-- written is read back, a certificate carries the key that signed it, and streams deliver bytes in
-- order; the text of a socket address is read back without the flow of IPv6, which it does not have.
-- GNOME Shell's selection gives what it was set to, and JavaScript's decoder gives back UTF-8 that
-- does not begin with a byte order mark. What the bus, the terminal and the operating system answer is
-- an argument.
--
-- Not modelled: the sockets themselves, the uniffi bindings, the terminal's modes, the log, the Kotlin
-- app, the desktop extensions but for the calls named above, and the packaging. Whether the clipboard
-- backend's write succeeds is not followed, since its result is only logged. A file operation is taken
-- to be on the disk once it returns. A handshake's claimed device id is not compared with the
-- certificate's key in the code; the model keeps the two apart in the same way.
mod Base
pub mod Protocol
pub mod Net
pub mod Daemon
pub mod Ffi
pub mod Cli
pub mod Tests
