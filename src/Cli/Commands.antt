-- ===== src/Cli/Commands.antt =====
-- The commands that ask the daemon (crates/shellbell-cli/src/main.rs, lines 105 to 161, 356 to 526 and
-- 558 to 597, with `duration_ms`).
pub mod Flow
pub mod Valid
use shellbell.Base.{ℕ, List, [], ◌∷◌, Option, none, some, Bool, true, false, not, if◌then◌else◌}
use shellbell.Base.Result.{Result, ok, err, map_err}
use shellbell.Base.Result
use shellbell.Base.Step.{Step, ◌>>=◌, ◌>>◌, lift, pure, attempt}
use shellbell.Base.Text.{Text, codes}
use shellbell.Activity.Session.{Uuid, ShellType, once, persistent}
use shellbell.Protocol.{validate_name, validate_message}
use shellbell.Config.{EffectiveConfig, load, duration_ms, parse_session_duration}
use shellbell.Ipc
use shellbell.Ipc.{
  IpcCommand, IpcResponse, IpcResult, SessionStatus, arm_persistent, arm_once, disarm, set_label,
  status as asks_status, manual_ring, session_status, ring_queued,
}
use shellbell.Cli.{
  CliError, pid_required, shell_required, unexpected_response, config_failed, invalid_text,
  Environment, Host, Parsers, hook_timeout, cli_timeout, some_or, current_session_id, real_tty,
}
use shellbell.Cli.Ready.{send, send_explicit, ensure_daemon, ensure_registered}

pub data Target : Type 0 where
  phone pc all : Target

unfoldable pub targets : Target → List Text
targets phone = codes "phone" ∷ []
targets pc = codes "pc" ∷ []
targets all = []

pub record ArmCommand : Type 0 where
  pub minimum_active : Option Text
  pub idle_for : Option Text
  pub to : Option Target

-- `option.map(targets).unwrap_or_else(…)`
unfoldable pub targets_or : Option Target → List Text → List Text
unfolding targets
targets_or none configured = configured
targets_or (some target) configured = targets target

-- A duration of the options, or else of the configuration, in milliseconds.
unfoldable pub duration_or : Parsers → Option Text → ℕ → Result CliError ℕ
unfolding parse_session_duration duration_ms
duration_or parsers none configured = ok configured
duration_or parsers (some value) configured =
    Result.◌>>=◌ (map_err config_failed (parse_session_duration parsers.humantime value))
      (λ d. ok (duration_ms d))

unfoldable pub arm_request : Bool → Uuid → ℕ → ℕ → List Text → IpcCommand
arm_request true session_id minimum idle targets = arm_once session_id minimum idle targets
arm_request false session_id minimum idle targets = arm_persistent session_id minimum idle targets

-- The request of `arm`, from what is in the configuration's file.
unfoldable pub arm_command :
    Parsers → Option (Option Text) → ArmCommand → Bool → Uuid → Result CliError IpcCommand
unfolding duration_or arm_request targets_or load
arm_command parsers file options is_once session_id =
    Result.◌>>=◌ (map_err config_failed (load parsers.humantime parsers.toml file)) (λ config.
      Result.◌>>=◌ (duration_or parsers options.minimum_active config.minimum_active_ms) (λ minimum.
        Result.◌>>=◌ (duration_or parsers options.idle_for config.idle_for_ms) (λ idle.
          ok (arm_request is_once session_id minimum idle (targets_or options.to config.targets)))))

-- `label.map(validate_name).transpose()?`
unfoldable pub checked_label : Option Text → Result CliError (Option Text)
unfolding validate_name
checked_label none = ok none
checked_label (some label) =
    Result.◌>>=◌ (map_err invalid_text (validate_name label)) (λ name. ok (some name))

unfoldable pub expect_status : Option IpcResult → Result CliError SessionStatus
expect_status (some (session_status s)) = ok s
expect_status _ = err unexpected_response

unfoldable pub expect_queued : Option IpcResult → Result CliError (Option Uuid)
expect_queued (some (ring_queued event)) = ok event
expect_queued _ = err unexpected_response

-- `.ok()`
abbrev pub or_none : {E A : Type 0} → Result E A → Option A
or_none (ok a) = some a
or_none (err e) = none

pub data HookEvent : Type 0 where
  session_open command_start prompt_ready session_close : HookEvent

pub record HookCommand : Type 0 where
  pub event : HookEvent
  pub shell : Option ShellType
  pub pid : Option ℕ
  pub tty : Option Text

unfoldable pub hook_request : HookCommand → HookEvent → Uuid → Result CliError IpcCommand
unfolding some_or real_tty
hook_request command session_open id = Result.◌>>=◌ (some_or command.pid pid_required) (λ pid.
    Result.◌>>=◌ (some_or command.shell shell_required)
      (λ shell. ok (Ipc.session_open id pid shell (real_tty command.tty))))
hook_request command command_start id = ok (Ipc.command_start id)
hook_request command prompt_ready id = ok (Ipc.prompt_ready id)
hook_request command session_close id = ok (Ipc.session_close id)

abbrev pub opens : HookEvent → Bool
opens session_open = true
opens _ = false

module _ (host : Host) (parsers : Parsers) (env : Environment) where
  -- The daemon, and the session registered with it.
  unfoldable pub prepare : Step host.State CliError (Unit {0})
  unfolding ◌>>◌
  prepare = do ensure_daemon host false; ensure_registered host parsers env cli_timeout

  unfoldable pub arm :
      Option (Option Text) → ArmCommand → Bool → Step host.State CliError (Unit {0})
  unfolding ◌>>=◌ ◌>>◌ lift pure
  arm file options is_once = do
    session_id ← lift (current_session_id parsers env)
    prepare
    request ← lift (arm_command parsers file options is_once session_id)
    send_explicit host request
    pure tt

  -- `session_simple` with its one factory, `Disarm`.
  unfoldable pub session_simple : Step host.State CliError (Unit {0})
  unfolding ◌>>=◌ ◌>>◌ lift pure
  session_simple = do
    session_id ← lift (current_session_id parsers env)
    prepare
    send_explicit host (disarm session_id)
    pure tt

  unfoldable pub name : Option Text → Step host.State CliError (Unit {0})
  unfolding ◌>>=◌ ◌>>◌ lift pure
  name value = do
    session_id ← lift (current_session_id parsers env)
    label ← lift (checked_label value)
    prepare
    send_explicit host (set_label session_id label)
    pure tt

  unfoldable pub status : Step host.State CliError SessionStatus
  unfolding ◌>>=◌ ◌>>◌ lift
  status = do
    session_id ← lift (current_session_id parsers env)
    prepare
    response ← send_explicit host (asks_status session_id)
    lift (expect_status response.result)

  -- `if current_session_id().is_ok() { ensure_current_session_registered }`
  unfoldable pub register_if_integrated : Option Uuid → Step host.State CliError (Unit {0})
  unfolding pure
  register_if_integrated none = pure tt
  register_if_integrated (some id) = ensure_registered host parsers env cli_timeout

  -- The identifier of the event, unless the burst has already rung.
  unfoldable pub ring : Option Text → Target → Step host.State CliError (Option Uuid)
  unfolding ◌>>=◌ ◌>>◌ lift
  ring text target = do
    message ← lift (map_err invalid_text (validate_message text))
    let session = or_none (current_session_id parsers env)
    ensure_daemon host false
    register_if_integrated session
    response ← send_explicit host (manual_ring session message (targets target))
    lift (expect_queued response.result)

  -- `let _ = …`
  unfoldable pub ignore :
      {A : Type 0} → Step host.State CliError A → Step host.State CliError (Unit {0})
  unfolding attempt
  ignore m s = ((m s).0, ok tt)

  -- After a first request that failed.
  unfoldable pub retry_hook : Bool → IpcCommand → Step host.State CliError (Unit {0})
  unfolding ◌>>◌ pure
  retry_hook is_opening request = do
    ensure_daemon host true
    if is_opening then pure tt else ignore (ensure_registered host parsers env hook_timeout)
    ignore (send host request hook_timeout)

  unfoldable pub send_hook : Bool → IpcCommand → Step host.State CliError (Unit {0})
  unfolding attempt
  send_hook is_opening request s =
      let (t, reached) = attempt (send host request hook_timeout) s in
      if reached then (t, ok tt) else retry_hook is_opening request t

  unfoldable pub run_hook : HookCommand → Step host.State CliError (Unit {0})
  unfolding ◌>>=◌ lift
  run_hook command = do
    session_id ← lift (current_session_id parsers env)
    request ← lift (hook_request command command.event session_id)
    send_hook (opens command.event) request
