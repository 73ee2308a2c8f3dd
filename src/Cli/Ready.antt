-- ===== src/Cli/Ready.antt =====
-- The daemon that a command needs (crates/shellbell-cli/src/main.rs, lines 599 to 669 and 695 to 697).
pub mod Waits
use shellbell.Base.{ℕ, zero, suc, Bool, if◌then◌else◌}
use shellbell.Base.Result.{ok, err}
use shellbell.Base.Step.{Step, ◌>>=◌, ◌>>◌, lift, pure, map_error, attempt}
use shellbell.Ipc.{IpcCommand, IpcResponse, daemon_ping}
use shellbell.Ipc.Client.{new_request, request}
use shellbell.Cli.{
  CliError, no_private_dirs, not_started, daemon_starting, daemon_not_ready, ipc_failed,
  Environment, Host, Parsers, hook_timeout, cli_timeout, current_session_metadata, opening,
}

abbrev pub limit_of : Bool → ℕ
limit_of hook = if hook then hook_timeout else 200

abbrev pub attempts_of : Bool → ℕ
attempts_of hook = if hook then 8 else 50

abbrev pub not_ready_error : Bool → CliError
not_ready_error hook = if hook then daemon_starting else daemon_not_ready

module _ (host : Host) where
  -- `ipc::request` with a new request.
  unfoldable pub send : IpcCommand → ℕ → Step host.State CliError IpcResponse
  unfolding map_error
  send command limit s =
      map_error ipc_failed
        (request host.codec host.socket (new_request (host.fresh s) command) limit) s

  unfoldable pub send_explicit : IpcCommand → Step host.State CliError IpcResponse
  send_explicit command = send command cli_timeout

  unfoldable pub answers : ℕ → host.State → host.State × Bool
  unfolding attempt
  answers limit = attempt (send daemon_ping limit)

  -- A step of the host whose failure is this error.
  unfoldable pub perform :
      (host.State → host.State × Bool) → CliError → Step host.State CliError (Unit {0})
  perform step error s = ((step s).0, if (step s).1 then ok tt else err error)

  -- The loop of `ensure_daemon`, with as many attempts left.
  unfoldable pub await_daemon : ℕ → CliError → ℕ → Step host.State CliError (Unit {0})
  await_daemon limit error zero s = (s, err error)
  await_daemon limit error (suc attempts) s =
      let (t, up) = answers limit (host.sleep 15 s) in
      let rest = await_daemon limit error attempts t in if up then (t, ok tt) else rest

  -- From the directories on.
  unfoldable pub start_daemon : Bool → Step host.State CliError (Unit {0})
  unfolding ◌>>◌
  start_daemon hook = do
    perform host.make_private_dirs no_private_dirs
    perform host.spawn_daemon not_started
    await_daemon (limit_of hook) (not_ready_error hook) (attempts_of hook)

  unfoldable pub ensure_daemon : Bool → Step host.State CliError (Unit {0})
  ensure_daemon hook s =
      let (t, up) = answers (limit_of hook) s in if up then (t, ok tt) else start_daemon hook t

  unfoldable pub ensure_registered : Parsers → Environment → ℕ → Step host.State CliError (Unit {0})
  unfolding ◌>>=◌ ◌>>◌ lift pure
  ensure_registered parsers env limit = do
    m ← lift (current_session_metadata parsers env)
    send (opening m) limit
    pure tt
