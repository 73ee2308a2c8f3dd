-- ===== src/Tests/Cli.antt =====
-- The command line beside an empty daemon, with a codec that knows the messages of one session.
use shellbell.Base.{
  ℕ, ◌+◌, ◌*◌, ◌++◌, suc, ◌≡◌, ◌≤◌, ◌↔◌, refl, sym, ap, List, [], ◌∷◌, Option, none, some, true,
  false, if◌then◌else◌, arith, leb,
}
use shellbell.Base.Int.{pos}
use shellbell.Base.Result.{ok}
use shellbell.Base.Text.{Text, codes, text_eq, utf8_len}
use shellbell.Activity.Session.{Uuid, bash, Session}
use shellbell.Activity.Engine.{find}
use shellbell.Activity.Finds.{IsArmed}
use shellbell.Activity.Trace.{Call, starts, run}
use shellbell.Activity.Keeps.Steps.{Safe}
use shellbell.Activity.Quiet.{IsQuiet, is_ring_for}
use shellbell.LocalStore.Store.{DaemonStatus}
use shellbell.Config.{default_config}
use shellbell.Ipc.{
  IpcCommand, IpcRequest, IpcResult, IpcResponse, arm_once, disarm, daemon_ping, acknowledged, pong,
  success, validate,
}
use shellbell.Ipc.Accepts.{InSpan, AreKnown}
use shellbell.Ipc.Client.{Codec, new_request, request}
use shellbell.Ipc.Wire.{kind_of, keys_of, Conveys}
use shellbell.Daemon.{handle_request, handle_command, finish}
use shellbell.Daemon.Connection.{Moment, Running, respond}
use shellbell.Daemon.Exchange.{
  handled, after, running_socket, outcome, request_is_handled, request_reaches,
}
use shellbell.Cli.{
  Environment, Host, Parsers, Metadata, current_session_metadata, opening, cli_timeout,
}
use shellbell.Cli.Ready.{ensure_daemon}
use shellbell.Cli.Ready.Waits.{ensure_daemon_iff, HasDaemon}
use shellbell.Cli.Commands.{ArmCommand, phone, arm, arm_command, session_simple}
use shellbell.Cli.Running.{Gives, IsFaithful, local_host}
use shellbell.Cli.Running.Arms.{arm_arms, mode_of}
use shellbell.Cli.Running.Off.{off_silences}
use shellbell.Tests.Config.{humantime, toml}
use shellbell.Tests.Daemon.{empty_daemon}
use shellbell.Tests.LocalStore.{oldest_first}

abbrev metadata : Metadata
metadata = record { session_id = 7; shell_pid = 42; shell_type = bash; tty = none }

abbrev env : Environment
env = record {
  session_id = some (codes "7");
  shell_pid = some (codes "42");
  shell_type = some (codes "bash");
  tty = some (codes "not a tty");
}

abbrev parsers : Parsers
parsers = record { uuid = λ text. some 7; humantime = humantime; toml = toml }

abbrev armed_once : IpcCommand
armed_once = arm_once 7 120000 45000 (codes "phone" ∷ [])

-- The command that a kind stands for in these messages.
abbrev command_of : Text → IpcCommand
command_of kind =
    if text_eq kind (codes "daemon_ping")
    then daemon_ping
    else if text_eq kind (codes "session_open")
    then opening metadata
    else if text_eq kind (codes "arm_once")
    then armed_once
    else disarm 7

abbrev object : Text → Option (Option (Option Text × List Text))
object [] = none
object (id ∷ kind) = some (some (some kind, keys_of (command_of kind)))

abbrev read_request : Text → Option IpcRequest
read_request [] = none
read_request (id ∷ kind) = some (new_request id (command_of kind))

abbrev write_response : IpcResponse → Text
write_response a = a.request_id ∷ result_of a.result
  where
    result_of : Option IpcResult → Text
    result_of (some acknowledged) = 1 ∷ []
    result_of (some (pong s)) =
        2 ∷ s.pending_events ∷ s.authorization_failures ∷ s.dropped_events ∷ s.active_sessions ∷ []
    result_of _ = []

abbrev read_response : Text → Option IpcResponse
read_response (id ∷ tag ∷ lf ∷ []) = some (success id acknowledged)
read_response (id ∷ tag ∷ a ∷ b ∷ c ∷ d ∷ lf ∷ []) = some (
    success id (
      pong (record {
        pending_events = a;
        authorization_failures = b;
        dropped_events = c;
        active_sessions = d;
      })))
read_response _ = none

abbrev codec : Codec
codec = record {
  write_request = λ r. r.request_id ∷ kind_of r.command;
  json = record { object = object; request = read_request };
  write_response = write_response;
  read_response = read_response;
}

-- The bytes of any character and a few others.
short_line : (id : ℕ) (rest : Text) → utf8_len rest ≤ 40 → utf8_len (id ∷ rest) ≤ 44
unfolding utf8_len
short_line id rest h = ground (arith, h)

sends :
    (id : ℕ) (c : IpcCommand)
    → c ≡ command_of (kind_of c)
    → utf8_len (kind_of c) ≤ 40
    → Conveys codec (new_request id c)
sends id c e h = record {
  request = ap (λ x. some (new_request id x)) (sym e);
  object = ap (λ x. some (some (some (kind_of c), keys_of x))) (sym e);
  fits = omega (arith, short_line id (kind_of c) h);
}

wide : (n : ℕ) (rest : Text) (k : ℕ) → utf8_len rest ≤ k → utf8_len (n ∷ rest) ≤ k + 4
unfolding utf8_len
wide n rest k h = ground (arith, h)

utf8_len-nil : utf8_len [] ≡ 0
unfolding utf8_len
utf8_len-nil = refl

six_wide : (a b c d e f : ℕ) → utf8_len (a ∷ b ∷ c ∷ d ∷ e ∷ f ∷ []) ≤ 24
six_wide a b c d e f = wide a (b ∷ c ∷ d ∷ e ∷ f ∷ []) 20 (
    wide b (c ∷ d ∷ e ∷ f ∷ []) 16 (
      wide c (d ∷ e ∷ f ∷ []) 12
        (wide d (e ∷ f ∷ []) 8 (wide e (f ∷ []) 4 (wide f [] 0 (nil_wide))))))
  where
    nil_wide : utf8_len [] ≤ 0
    nil_wide = omega (arith, utf8_len-nil)

Gives-pong : (status : DaemonStatus) → Gives codec (pong status)
unfolding respond success
Gives-pong status id = record {
  response = refl;
  fits = omega (
    arith,
    six_wide id 2 status.pending_events status.authorization_failures status.dropped_events
        status.active_sessions,
  );
}

Gives-acknowledged : Gives codec acknowledged
unfolding respond success utf8_len
Gives-acknowledged id = record {
  response = refl;
  fits = omega (arith, wide id (1 ∷ []) 4 (omega arith));
}

faithful :
    (c : IpcCommand)
    → c ≡ command_of (kind_of c)
    → utf8_len (kind_of c) ≤ 40
    → IsFaithful codec metadata c
unfolding kind_of text_eq utf8_len
faithful c e h = record {
  ping = λ id. sends id daemon_ping refl (omega arith);
  opening = λ id. sends id (opening metadata) refl (omega arith);
  command = λ id. sends id c e h;
  pong = Gives-pong;
  acknowledged = Gives-acknowledged;
}

abbrev moments : ℕ → Moment
moments i = record { fresh = 100 + i; mono = 10 * i; wall = pos (1000 + i) }

abbrev start : Running
start = record { daemon = empty_daemon; served = 0 }

abbrev fresh : Running → Uuid
fresh s = s.served

abbrev host : Host
host = local_host oldest_first default_config codec 1000 moments fresh

abbrev options : ArmCommand
options = record { minimum_active = none; idle_for = none; to = some phone }

metadata_read : current_session_metadata parsers env ≡ ok metadata
unfolding current_session_metadata text_eq
metadata_read = refl

arm_arms_example :
    ((arm host parsers env none options true start).1 ≡ ok tt)
    × ((minimum : ℕ) × (idle : ℕ) × (targets : List Text) × (u : Session) × (find
            (arm host parsers env none options true start).0.daemon.engine
            7
          ≡ some u)
        × IsArmed (mode_of true) minimum idle targets 102 u
        × InSpan minimum
        × InSpan idle
        × AreKnown targets)
unfolding arm_command kind_of text_eq utf8_len
arm_arms_example =
    arm_arms oldest_first default_config codec 1000 moments fresh parsers env none options true
      metadata armed_once start (faithful armed_once refl (omega arith)) (omega arith, refl)
      metadata_read refl

abbrev calls : List Call
calls = starts 200 7 500 (pos 2000) ∷ starts 201 8 600 (pos 2100) ∷ []

off_silences_example :
    ((session_simple host parsers env start).1 ≡ ok tt)
    × Safe
        (IsQuiet 7)
        (λ a. is_ring_for 7 a ≡ false)
        (run (session_simple host parsers env start).0.daemon.engine calls)
unfolding kind_of text_eq utf8_len
off_silences_example =
    off_silences oldest_first default_config codec 1000 moments fresh parsers env metadata start
      calls (faithful (disarm 7) refl (omega arith)) (omega arith, refl) metadata_read (omega arith)
      (record { engine = record { sorted = tt; every = tt }; saved = tt; queue = omega arith })
      (tt, (tt, tt))

abbrev asks : IpcRequest
asks = new_request 5 (opening metadata)

request_is_handled_example :
    (request codec
      (running_socket oldest_first default_config codec 1000 moments)
      asks
      cli_timeout
      start).0
    ≡ after oldest_first default_config codec 1000 moments asks start
unfolding validate kind_of text_eq utf8_len
request_is_handled_example =
    request_is_handled oldest_first default_config codec 1000 moments asks cli_timeout start
      (sends 5 (opening metadata) refl (omega arith)) refl

request_reaches_example :
    request codec
      (running_socket oldest_first default_config codec 1000 moments)
      asks
      cli_timeout
      start
    ≡ (
      after oldest_first default_config codec 1000 moments asks start,
      outcome asks (handled oldest_first default_config codec 1000 moments asks start).1,
    )
unfolding validate kind_of text_eq utf8_len handle_request handle_command finish
request_reaches_example =
    request_reaches oldest_first default_config codec 1000 moments asks cli_timeout start
      (sends 5 (opening metadata) refl (omega arith)) refl (Gives-acknowledged 5)

-- A daemon that answers once three pauses are over.
abbrev slow_host : Host
slow_host = record {
  State = ℕ;
  codec = codec;
  socket = λ limit line s. (
    s,
    if leb 3 s
        then some (
            write_response (
              success 0 (
                pong (record {
                  pending_events = 0;
                  authorization_failures = 0;
                  dropped_events = 0;
                  active_sessions = 0;
                })))
            ++ (10 ∷ []))
        else none,
  );
  fresh = λ s. 0;
  make_private_dirs = λ s. (s, true);
  spawn_daemon = λ s. (s, true);
  sleep = λ ms s. suc s;
}

ensure_daemon_iff_example :
    (((ensure_daemon slow_host true 0).1 ≡ ok tt) ↔ HasDaemon slow_host 90 8 0)
    × (((ensure_daemon slow_host false 0).1 ≡ ok tt) ↔ HasDaemon slow_host 200 50 0)
ensure_daemon_iff_example = ensure_daemon_iff slow_host 0
