-- ===== src/Cli/Commands/Flow.antt =====
-- How the commands of crates/shellbell-cli/src/main.rs go on where each step succeeds.
use shellbell.Base.{ℕ, ◌≡◌, refl, ap, ◌∙◌, Option, Bool, true, false}
use shellbell.Base.Result.{Result, ok, err}
use shellbell.Base.Step.{◌>>=◌, ◌>>◌, lift, pure}
use shellbell.Base.Text.{Text}
use shellbell.Activity.Session.{Uuid}
use shellbell.Ipc.{IpcCommand, IpcResponse, disarm}
use shellbell.Config.Bounds.{bind-ok}
use shellbell.Core.Password.{parse_u32}
use shellbell.Cli.{
  CliError, some_or, shell_of, shell_pid_missing, shell_pid_invalid, Environment, Host, Parsers,
  Metadata, cli_timeout, current_session_id, current_session_metadata, opening,
}
use shellbell.Cli.Ready.{answers, send, send_explicit, limit_of, ensure_daemon, ensure_registered}
use shellbell.Cli.Commands.{ArmCommand, arm_command, prepare, arm, session_simple}

pub metadata-id :
    (parsers : Parsers) (env : Environment) (m : Metadata)
    → current_session_metadata parsers env ≡ ok m
    → current_session_id parsers env ≡ ok m.session_id
unfolding current_session_metadata
metadata-id parsers env m h =
    let (id, e, h1) = bind-ok (current_session_id parsers env) _ m h in
    let (value, e1, h2) = bind-ok (some_or env.shell_pid shell_pid_missing) _ m h1 in
    let (pid, e2, h3) = bind-ok (some_or (parse_u32 value) shell_pid_invalid) _ m h2 in
    let (shell, e3, h4) = bind-ok (shell_of env.shell_type) _ m h3 in e ∙ ap (id_of id) h4
  where
    id_of : Uuid → Result CliError Metadata → Result CliError Uuid
    id_of id (ok x) = ok x.session_id
    id_of id (err x) = ok id

module _ (host : Host) where
  pub ensure_daemon-answers :
      (hook : Bool) (s t : host.State)
      → answers host (limit_of hook) s ≡ (t, true)
      → ensure_daemon host hook s ≡ (t, ok tt)
  unfolding ensure_daemon
  ensure_daemon-answers hook s t h = rw h refl

  module _ (parsers : Parsers) (env : Environment) where
    pub ensure_registered-send :
        (limit : ℕ) (m : Metadata) (s t : host.State) (response : IpcResponse)
        → current_session_metadata parsers env ≡ ok m
        → send host (opening m) limit s ≡ (t, ok response)
        → ensure_registered host parsers env limit s ≡ (t, ok tt)
    unfolding ensure_registered ◌>>=◌ ◌>>◌ lift pure
    ensure_registered-send limit m s t response e h = rw e (rw h refl)

    pub prepare-steps :
        (s t u : host.State)
        → ensure_daemon host false s ≡ (t, ok tt)
        → ensure_registered host parsers env cli_timeout t ≡ (u, ok tt)
        → prepare host parsers env s ≡ (u, ok tt)
    unfolding prepare ◌>>=◌ ◌>>◌
    prepare-steps s t u h k = rw h (rw k refl)

    pub arm-steps :
        (file : Option (Option Text)) (options : ArmCommand) (is_once : Bool) (id : Uuid)
        (c : IpcCommand) (s t u : host.State) (response : IpcResponse)
        → current_session_id parsers env ≡ ok id
        → prepare host parsers env s ≡ (t, ok tt)
        → arm_command parsers file options is_once id ≡ ok c
        → send host c cli_timeout t ≡ (u, ok response)
        → arm host parsers env file options is_once s ≡ (u, ok tt)
    unfolding arm send_explicit ◌>>=◌ ◌>>◌ lift pure
    arm-steps file options is_once id c s t u response e h k l = rw e (rw h (rw k (rw l refl)))

    pub session_simple-steps :
        (id : Uuid) (s t u : host.State) (response : IpcResponse)
        → current_session_id parsers env ≡ ok id
        → prepare host parsers env s ≡ (t, ok tt)
        → send host (disarm id) cli_timeout t ≡ (u, ok response)
        → session_simple host parsers env s ≡ (u, ok tt)
    unfolding session_simple send_explicit ◌>>=◌ ◌>>◌ lift pure
    session_simple-steps id s t u response e h l = rw e (rw h (rw l refl))
