-- ===== src/Lib.antt =====
-- Shellbell rings a phone or a desktop when a shell command has run for a while and the shell is
-- back at its prompt. Its parts: an activity engine that watches the shells of one machine, a
-- daemon that owns the engine and a durable queue of rings, a relay that takes the rings in and
-- hands them to receivers, and an installer that puts its hooks into the shells' startup files.
-- This library models the Rust code of these parts and proves what makes them correct.
--
-- Activity (crates/shellbell-local/src/activity.rs). A `Session` is a record, the engine a map of
-- sessions sorted by identifier (the source's BTreeMap), kept in Base/OrderedMap.antt. Session
-- holds the type and its own methods, Engine the operations on one session, Rings the manual ring,
-- `tick` and `cleanup_stale`. `none` as the result of `tick` is the panic of its `expect`. Trace
-- names the sequences of calls that the daemon makes; Invariant, Keeps, WellFormed, Quiet, Once,
-- Bursts and Tick prove what holds over them.
--
-- LocalStore (crates/shellbell-local/src/store.rs). Queue has the table ring_queue as a list of
-- rows and the statements that several methods share, Store the methods. The choice of the oldest
-- row in a tie is left to SQLite, so it is a parameter, `OldestFirst`, with what ORDER BY promises.
--
-- Ipc and Daemon (crates/shellbell-local/src/ipc.rs and daemon.rs). Ipc has the commands, their
-- validation and decoding, Ipc/Client the client's request, Ipc/Wire what serde writes of it, and
-- Ipc/Accepts is about valid requests. Daemon has the handler of a request, the timers, the
-- cleanup, a delivery, the start and the stop, and Daemon/Connection one connection; Exchange is
-- about a request from the client to the handler and back, Requests and Run are about any sequence
-- of these, Recovery about a restart, Relaying about the outcomes of a delivery and its retries.
--
-- Config (crates/shellbell-local/src/config.rs). Reading and checking the settings; TOML with serde
-- and humantime are parameters. Daemon/Configured.antt is about a daemon with what was loaded.
--
-- Files (crates/shellbell-local/src/config.rs, `atomic_private_write`, and install.rs,
-- `atomic_managed_write`). The two atomic writes on a file system whose calls may fail; in
-- Files/Progress the steps up to the rename, and in Files/Atomic what the writes leave.
--
-- Install (crates/shellbell-local/src/install.rs). Install has the edits of a startup file on its
-- bytes; Home has the files below the home directory as a record, Setup has `install`, Removal has
-- `uninstall`. Lines, RoundTrip, Restores and Found are about the edits, Undone, Twice and DryRun
-- about the installer.
--
-- Cli (crates/shellbell-cli/src/main.rs). The commands on a host, a record of a socket, the start
-- of a process and a clock: Ready waits for the daemon, Commands has the commands that ask it and
-- the hook, Http the requests to the relay with their repetition, Pair the pairing, Doctor the
-- check of an installation. Commands/Valid is about what is sent, Commands/Flow about how a
-- command goes on; Running puts a daemon behind the socket, and Running/Arms and Running/Off are
-- about `on`, `once` and `off` there. Ready/Waits, Http/Retry, Pair/Addresses, Pair/Ends,
-- Pair/Saves and Doctor/Approves have the theorems on the others.
--
-- Protocol and Core (crates/shellbell-protocol/src/lib.rs, crates/shellbell-core/src/lib.rs). The
-- validators of names, messages, tags and subscriptions, the hashed secrets, and in Core/Password
-- the hashed passwords, where SHA-256 and base64 are parameters.
--
-- Relay (crates/shellbell-relay/src/lib.rs and push.rs). State has the tables and the shape of a
-- handler, a function of the tables that returns the new tables and a result or an error. Limiter,
-- Auth, Owner, Pairing, Receivers and Rings have the handlers, named as in the source, with the
-- cursor of a poll in Rings/Cursor and the list of rings in Rings/Views; Rings/Feed and
-- Rings/Rising are about polling, Rings/Submit about a ring that is submitted again. History is
-- about any sequence of requests: History/Requests has a request for each route, its other
-- children show for each handler how it moves the tables on. Password
-- (crates/shellbell-relay/src/main.rs) is the middleware of the server's binary, which answers the
-- owner's set-up, login and status by password in front of the handlers of the same routes;
-- Password/Login and Password/Once are about it. Limiter/Windows is about the limiter's calls with
-- one key, Limiter/Keys about those with any keys. The order of rows of one time is left to
-- SQLite, so it is a parameter, `TimeOrder`, with what ORDER BY promises. Push
-- (crates/shellbell-relay/src/push.rs) is a delivery by web push, and Push/Outage is about the
-- receivers that it disables.
--
-- How they meet. A command of the shell sends its request through the client to the daemon's
-- connection. The daemon calls the engine and saves its sessions in the store, with the rings
-- that the engine made; the delivery takes the oldest ring of the store to the relay's
-- `submit_ring`. Pairing from the command line polls the relay's `poll_pairing`, and the doctor
-- reads the files that the installer wrote.
--
-- Conventions. Numbers are the native naturals; a machine word keeps its saturation written out
-- (Base/Words.antt); a signed number is the ℤ of Base/Int.antt. A text is the list of its code
-- points. Clocks, fresh identifiers, random tokens and the liveness of a process are arguments.
-- Parameters stand for SHA-256, base64, Url::parse, humantime, what serde makes of a line or of
-- TOML, the text of a Uuid, and the answers of the relay and of the push service. Every loop is
-- recursion on a list, or counts down: the iterations of the password's hash, the attempts of a
-- command. Only the polling of `pair`, which ends by the clock, has fuel, and Pair/Ends shows how
-- much is enough.
--
-- Not modelled: sockets below one exchange, signals and the HTTP router; errors of the database,
-- which end the daemon or the request; errors of the file system but in the atomic writes, which
-- Install has as whole writes; the modes of directories; the paths of config.rs and the JSON of
-- the credentials; running systemctl and the text of the hooks; the parsing of arguments, what is
-- printed, the wrappers of install and uninstall, the start of the relay's binary, random tokens
-- and codes, the inside of the web push crate, the web client, the site and the scripts.
pub mod Activity
pub mod Base
pub mod Cli
pub mod Config
pub mod Core
pub mod Daemon
pub mod Files
pub mod Install
pub mod Ipc
pub mod LocalStore
pub mod Protocol
pub mod Relay
mod Tests
