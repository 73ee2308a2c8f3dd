-- ===== src/Cli/Running.antt =====
-- The commands of crates/shellbell-cli/src/main.rs beside a running daemon of the same user
-- (crates/shellbell-local/src/daemon.rs), which answers in time.
pub mod Arms
pub mod Off
use mathlib.Core.Option
use shellbell.Base.{
  ℕ, suc, ◌≡◌, ◌≤◌, ◌<◌, ◌==◌, refl, sym, ap, ◌∙◌, List, [], ◌∷◌, Option, none, some, Bool, true,
  false, not, arith, length, if◌then◌else◌, is_some_and, Option-cases, inl, inr,
}
use mathlib.Core.Path.{subst}
use shellbell.Base.Result.{Result, ok, err}
use shellbell.Base.Step.{proceed, succeeded, ◌>>=◌, ◌>>◌, lift, pure, map_error, attempt}
use shellbell.Base.OrderedMap.{values, get, get-modify, get-insert}
use shellbell.Base.Text.{Text}
use shellbell.Activity.Session.{Uuid, Session, Mode, off, disarmed, once, persistent}
use shellbell.Activity.Finds.{IsArmed, find-session_open, find-arm_and_start, find-disarm}
use shellbell.Activity.Engine.{ActivityEngine, reopen_session, find}
use shellbell.LocalStore.Queue.{OldestFirst}
use shellbell.LocalStore.Store.{DaemonStatus}
use shellbell.Protocol.Laws.{IsRising}
use shellbell.Config.{EffectiveConfig}
use shellbell.Ipc.{
  bad_tty, IpcCommand, IpcRequest, IpcError, IpcResult, IpcResponse, session_open, command_start,
  prompt_ready, session_close, arm_persistent, arm_once, disarm, set_label, status, manual_ring,
  daemon_ping, daemon_shutdown, acknowledged, session_status, ring_queued, pong, validate,
  validate_command, success, ipc_version,
}
use shellbell.Ipc.Accepts.{InSpan, AreKnown, FitsTty}
use shellbell.Ipc.Client.{Codec, new_request, request}
use shellbell.Ipc.Wire.{Conveys, Returns}
use shellbell.Daemon.{Daemon, Answer, handle_request, handle_command, finish}
use shellbell.Daemon.Connection.{Moment, Running, respond}
use shellbell.Daemon.Exchange.{handled, after, running_socket, outcome, request_reaches}
use shellbell.Cli.{
  CliError, ipc_failed, Environment, Host, Parsers, current_session_id, current_session_metadata,
  Metadata, cli_timeout, opening,
}
use shellbell.Cli.Ready.{send, answers, ensure_daemon, ensure_registered, send_explicit, limit_of}
use shellbell.Cli.Commands.{ArmCommand, arm_request, arm_command, prepare, arm, session_simple}
use shellbell.Cli.Commands.Flow.{
  metadata-id, ensure_daemon-answers, ensure_registered-send, prepare-steps, arm-steps,
  session_simple-steps,
}
use shellbell.Cli.Commands.Valid.{ArmsWithin, arm_command-IsValid}

-- serde conveys a command, in whatever request, and returns a result, in whatever answer.
abbrev pub Sends : Codec → IpcCommand → Type 0
Sends codec c = (id : Uuid) → Conveys codec (new_request id c)

abbrev pub Gives : Codec → IpcResult → Type 0
Gives codec result = (id : Uuid) → Returns codec (respond id (ok result))

-- What it must do for a command of the session, with the ping and the registration in front of it.
pub record IsFaithful (codec : Codec) (m : Metadata) (c : IpcCommand) : Type 0 where
  pub ping : Sends codec daemon_ping
  pub opening : Sends codec (opening m)
  pub command : Sends codec c
  pub pong : (status : DaemonStatus) → Gives codec (pong status)
  pub acknowledged : Gives codec acknowledged

-- The daemon accepts what the environment tells of the shell.
abbrev pub IsShell : Metadata → Type 0
IsShell m = (0 < m.shell_pid) × (is_some_and m.tty bad_tty ≡ false)

pub finish-found :
    (d : Daemon) (r : ActivityEngine × Bool)
    → r.1 ≡ true
    → ((finish d r).1 ≡ ok acknowledged) × ((finish d r).0.engine ≡ r.0)
unfolding finish
finish-found d (e, true) h = (refl, refl)
finish-found d (e, false) h = cc

module _ (o : OldestFirst) (config : EffectiveConfig) (codec : Codec) (uid : ℕ)
    (moments : ℕ → Moment) (fresh : Running → Uuid) where
  abbrev pub local_host : Host
  local_host = record {
    State = Running;
    codec = codec;
    socket = running_socket o config codec uid moments;
    fresh = fresh;
    make_private_dirs = λ s. (s, true);
    spawn_daemon = λ s. (s, true);
    sleep = λ ms s. s;
  }

  -- The daemon after a command that a new request brings it, and its result.
  abbrev pub result_of : IpcCommand → Running → Result IpcError IpcResult
  result_of c s = (handled o config codec uid moments (new_request (fresh s) c) s).1

  abbrev pub next : IpcCommand → Running → Running
  next c s = after o config codec uid moments (new_request (fresh s) c) s

  pub send_reaches :
      (c : IpcCommand) (limit : ℕ) (s : Running) (result : IpcResult)
      → Sends codec c
      → Gives codec result
      → validate_command c ≡ ok tt
      → result_of c s ≡ ok result
      → send local_host c limit s ≡ (next c s, ok (success (fresh s) result))
  unfolding send map_error validate
  send_reaches c limit s result sends gives valid e =
      let r = new_request (fresh s) c in
      let returns = subst (λ x. Returns codec (respond (fresh s) x)) (sym e) (gives (fresh s)) in
      rw (request_reaches o config codec uid moments r limit s (sends (fresh s)) valid returns)
        (rw e refl)

  pinged :
      (limit : ℕ) (s : Running)
      → Sends codec daemon_ping
      → ((status : DaemonStatus) → Gives codec (pong status))
      → answers local_host limit s ≡ (next daemon_ping s, true)
  unfolding answers attempt handle_request handle_command validate_command
  pinged limit s sends gives =
      ap (λ x. (x.0, succeeded x.1)) (send_reaches daemon_ping limit s _ sends (gives _) refl refl)

  opened_ok :
      (limit : ℕ) (m : Metadata) (s : Running)
      → Sends codec (opening m)
      → Gives codec acknowledged
      → IsShell m
      → send local_host (opening m) limit s
        ≡ (next (opening m) s, ok (success (fresh s) acknowledged))
  unfolding handle_request handle_command finish validate_command
  opened_ok limit m s sends gives (p, b) =
      let z : (m.shell_pid == 0) ≡ false = ground arith in
      send_reaches (opening m) limit s acknowledged sends gives (rw z (rw b refl)) refl

  -- The daemon after the ping and the registration of a command.
  abbrev pub prepared : Metadata → Running → Running
  prepared m s = next (opening m) (next daemon_ping s)

  pub prepare_reaches :
      (parsers : Parsers) (env : Environment) (m : Metadata) (c : IpcCommand) (s : Running)
      → IsFaithful codec m c
      → IsShell m
      → current_session_metadata parsers env ≡ ok m
      → prepare local_host parsers env s ≡ (prepared m s, ok tt)
  prepare_reaches parsers env m c s f p e =
      prepare-steps local_host parsers env s (next daemon_ping s) (prepared m s)
        (ensure_daemon-answers local_host false s (next daemon_ping s)
          (pinged (limit_of false) s f.ping f.pong))
        (ensure_registered-send local_host parsers env cli_timeout m (next daemon_ping s)
          (prepared m s) _ e
          (opened_ok cli_timeout m (next daemon_ping s) f.opening f.acknowledged p))

  -- The session after it was registered.
  pub prepared-find :
      (m : Metadata) (s : Running)
      → (t : Session) × (find (prepared m s).daemon.engine m.session_id ≡ some t)
  unfolding handle_request handle_command finish
  prepared-find m s =
      find-session_open s.daemon.engine m.session_id m.shell_pid m.shell_type m.tty
        config.minimum_active_ms config.idle_for_ms config.targets (moments (suc s.served)).wall
