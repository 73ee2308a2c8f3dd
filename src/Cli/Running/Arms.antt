-- ===== src/Cli/Running/Arms.antt =====
-- `on` and `once` (crates/shellbell-cli/src/main.rs, `arm`) beside a running daemon.

use shellbell.Base.{ℕ, suc, ◌≡◌, sym, ap, ◌∙◌, List, Option, some, Bool, true, false, if◌then◌else◌}
use mathlib.Core.Path.{subst}
use shellbell.Base.Result.{ok}
use shellbell.Base.Text.{Text}
use shellbell.Activity.Session.{Uuid, Session, Mode, once, persistent}
use shellbell.Activity.Finds.{IsArmed, find-arm_and_start}
use shellbell.Activity.Engine.{find}
use shellbell.LocalStore.Queue.{OldestFirst}
use shellbell.Config.{EffectiveConfig}
use shellbell.Ipc.{IpcCommand, acknowledged, validate_command}
use shellbell.Ipc.Accepts.{InSpan, AreKnown}
use shellbell.Ipc.Client.{Codec}
use shellbell.Daemon.{handle_request, handle_command}
use shellbell.Daemon.Connection.{Moment, Running}
use shellbell.Cli.{Environment, Parsers, current_session_metadata, Metadata, cli_timeout}
use shellbell.Cli.Commands.{ArmCommand, arm_request, arm_command, arm}
use shellbell.Cli.Commands.Flow.{metadata-id, arm-steps}
use shellbell.Cli.Commands.Valid.{arm_command-IsValid}
use shellbell.Cli.Running.{
  Sends, IsFaithful, finish-found, local_host, result_of, next, send_reaches, IsShell, prepared,
  prepare_reaches, prepared-find,
}

abbrev pub mode_of : Bool → Mode
mode_of is_once = if is_once then once else persistent

module _ (o : OldestFirst) (config : EffectiveConfig) (codec : Codec) (uid : ℕ)
    (moments : ℕ → Moment) (fresh : Running → Uuid) where
  arms_after :
      (is_once : Bool) (id : Uuid) (minimum idle : ℕ) (targets : List Text) (s : Running)
      (t : Session)
      → find s.daemon.engine id ≡ some t
      → (result_of o config codec uid moments fresh (arm_request is_once id minimum idle targets) s
          ≡ ok acknowledged)
        × ((u : Session) × (find
                (next o config codec uid moments fresh
                  (arm_request is_once id minimum idle targets)
                  s).daemon.engine
                id
              ≡ some u)
            × IsArmed (mode_of is_once) minimum idle targets (moments s.served).fresh u)
  unfolding handle_request handle_command arm_request
  arms_after true id minimum idle targets s t h =
      let now = moments s.served in
      let (y, w) =
        find-arm_and_start s.daemon.engine now.fresh id once minimum idle targets now.mono now.wall
          t h in
      let (u, k, a) = w in
      let (r, e) = finish-found s.daemon _ y in (r, (u, ap (λ x. find x id) e ∙ k, a))
  arms_after false id minimum idle targets s t h =
      let now = moments s.served in
      let (y, w) =
        find-arm_and_start s.daemon.engine now.fresh id persistent minimum idle targets now.mono
          now.wall t h in
      let (u, k, a) = w in
      let (r, e) = finish-found s.daemon _ y in (r, (u, ap (λ x. find x id) e ∙ k, a))

  -- Beside a running daemon of the same user that answers in time, where serde conveys the
  -- messages, the environment names an acceptable shell and the options and settings make a
  -- request: `on` and `once` succeed, and then the session is armed in mode persistent or once,
  -- with durations between 100 ms and seven days and known targets, and running the command that
  -- armed it as the first of a new burst.
  pub arm_arms :
      (parsers : Parsers) (env : Environment) (file : Option (Option Text)) (options : ArmCommand)
      (is_once : Bool) (m : Metadata) (c : IpcCommand) (s : Running)
      → IsFaithful codec m c
      → IsShell m
      → current_session_metadata parsers env ≡ ok m
      → arm_command parsers file options is_once m.session_id ≡ ok c
      → ((arm (local_host o config codec uid moments fresh) parsers env file options is_once s).1
          ≡ ok tt)
        × ((minimum : ℕ) × (idle : ℕ) × (targets : List Text) × (u : Session) × (find
                (arm
                  (local_host o config codec uid moments fresh)
                  parsers
                  env
                  file
                  options
                  is_once
                  s).0.daemon.engine
                m.session_id
              ≡ some u)
            × IsArmed (mode_of is_once) minimum idle targets (moments (suc (suc s.served))).fresh u
            × InSpan minimum
            × InSpan idle
            × AreKnown targets)
  arm_arms parsers env file options is_once m c s f p e h =
      let ((minimum, idle, ts, q, im, ii, k, r), valid) =
        arm_command-IsValid parsers file options is_once m.session_id c h in
      let (t, there) = prepared-find o config codec uid moments fresh m s in
      let (accepted, w) =
        arms_after is_once m.session_id minimum idle ts
          (prepared o config codec uid moments fresh m s) t there in
      let (u, found, armed) = w in
      let sent =
        send_reaches o config codec uid moments fresh
          (arm_request is_once m.session_id minimum idle ts) cli_timeout
          (prepared o config codec uid moments fresh m s) acknowledged
          (subst (Sends codec) q f.command) f.acknowledged (sym (ap validate_command q) ∙ valid)
          accepted in
      let all =
        arm-steps (local_host o config codec uid moments fresh) parsers env file options is_once
          m.session_id (arm_request is_once m.session_id minimum idle ts) s
          (prepared o config codec uid moments fresh m s)
          (next o config codec uid moments fresh (arm_request is_once m.session_id minimum idle ts)
            (prepared o config codec uid moments fresh m s))
          _ (metadata-id parsers env m e)
          (prepare_reaches o config codec uid moments fresh parsers env m c s f p e) (h ∙ ap ok q)
          sent in
      (
        ap (λ x. x.1) all,
        (
          minimum,
          idle,
          ts,
          u,
          ap (λ x. find x.0.daemon.engine m.session_id) all ∙ found,
          armed,
          im,
          ii,
          k,
        ),
      )
