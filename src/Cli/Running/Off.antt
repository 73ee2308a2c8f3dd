-- ===== src/Cli/Running/Off.antt =====
-- `off` (crates/shellbell-cli/src/main.rs, `session_simple`) beside a running daemon.
use shellbell.Base.{
  ℕ, ◌≡◌, ◌≤◌, ◌==◌, refl, sym, ap, inl, inr, List, [], ◌∷◌, some, false, All, Bool-cases, arith,
}
use mathlib.Core.Path.{subst}
use shellbell.Base.Int.{ℤ}
use shellbell.Base.Result.{ok}
use shellbell.Base.OrderedMap.{OrderedMap, modify, modify-IsSorted}
use shellbell.Base.OrderedMap.Entries.{Every}
use shellbell.Activity.Session.{Uuid, Session}
use shellbell.Activity.Engine
use shellbell.Activity.Engine.{ActivityEngine, find, with_session, disarm_session}
use shellbell.Activity.Finds.{find-disarm}
use shellbell.Activity.Trace.{Call, run}
use shellbell.Activity.Keeps.{Holds}
use shellbell.Activity.Keeps.Steps.{Safe}
use shellbell.Activity.WellFormed.{IsGood, IsGood-kept}
use shellbell.Activity.Quiet.{IsQuiet, is_ring_for, ArmsOther, run-IsQuiet}
use shellbell.LocalStore.Queue.{OldestFirst}
use shellbell.Config.{EffectiveConfig}
use shellbell.Ipc.{validate_command, disarm, daemon_ping, acknowledged}
use shellbell.Ipc.Client.{Codec, new_request}
use shellbell.Daemon.{handle_request, handle_command}
use shellbell.Daemon.Requests.{IsSound, request-IsSound}
use shellbell.Daemon.Connection.{Moment, Running}
use shellbell.Cli.{Environment, Parsers, Metadata, cli_timeout, current_session_metadata}
use shellbell.Cli.Commands.{session_simple}
use shellbell.Cli.Commands.Flow.{metadata-id, session_simple-steps}
use shellbell.Cli.Running.{
  IsFaithful, finish-found, local_host, result_of, next, send_reaches, IsShell, prepared,
  prepare_reaches, prepared-find,
}

modify-IsQuiet :
    (id : Uuid) (wall : ℤ) (m : OrderedMap Session)
    → Every IsGood m
    → Every (IsQuiet id) (modify m id (disarm_session wall))
unfolding modify disarm_session
modify-IsQuiet id wall [] a = tt
modify-IsQuiet id wall ((j, s) ∷ m) (g, a) = elim (Bool-cases (j == id)) [
  | inl y ↦ rw y ((IsGood-kept.disarmed wall j s g, λ e. refl), modify-IsQuiet id wall m a)
  | inr n ↦ rw n ((g, λ e. absurd (ground (arith, n, e))), modify-IsQuiet id wall m a)
]

disarm-IsQuiet :
    (id : Uuid) (wall : ℤ) (e : ActivityEngine) (s : Session)
    → find e id ≡ some s
    → Holds IsGood e
    → Holds (IsQuiet id) (Engine.disarm e id wall).0
unfolding find Engine.disarm
disarm-IsQuiet id wall e s h g =
    rw (h, with_session)
      (record {
        sorted = modify-IsSorted e.sessions id (disarm_session wall) g.sorted;
        every = modify-IsQuiet id wall e.sessions g.every;
      })

module _ (o : OldestFirst) (config : EffectiveConfig) (codec : Codec) (uid : ℕ)
    (moments : ℕ → Moment) (fresh : Running → Uuid) where
  prepared-IsSound :
      (m : Metadata) (s : Running)
      → 1 ≤ config.queue_limit
      → IsSound config.queue_limit s.daemon
      → IsSound config.queue_limit (prepared o config codec uid moments fresh m s).daemon
  prepared-IsSound m s l h =
      let now = moments s.served in
      request-IsSound o config _ _ _ _ _ l (
        request-IsSound o config s.daemon now.fresh now.mono now.wall
          (new_request (fresh s) daemon_ping) l h)

  disarms_after :
      (id : Uuid) (s : Running) (t : Session)
      → find s.daemon.engine id ≡ some t
      → Holds IsGood s.daemon.engine
      → (result_of o config codec uid moments fresh (disarm id) s ≡ ok acknowledged)
        × Holds (IsQuiet id) (next o config codec uid moments fresh (disarm id) s).daemon.engine
  unfolding handle_request handle_command
  disarms_after id s t h g =
      let (y, w) = find-disarm s.daemon.engine id (moments s.served).wall t h in
      let (r, e) = finish-found s.daemon _ y in
      (r, subst (Holds (IsQuiet id)) (sym e) (disarm-IsQuiet id _ s.daemon.engine t h g))

  -- Beside a running daemon of the same user that answers in time and is sound, with a queue's
  -- limit of at least one, where serde conveys the messages and the environment names an acceptable
  -- shell: `off` succeeds, and whatever proper calls of the engine come after it that do not arm
  -- the session, none of them panics and none makes an automatic ring for it.
  pub off_silences :
      (parsers : Parsers) (env : Environment) (m : Metadata) (s : Running) (calls : List Call)
      → IsFaithful codec m (disarm m.session_id)
      → IsShell m
      → current_session_metadata parsers env ≡ ok m
      → 1 ≤ config.queue_limit
      → IsSound config.queue_limit s.daemon
      → All (ArmsOther m.session_id) calls
      → ((session_simple (local_host o config codec uid moments fresh) parsers env s).1 ≡ ok tt)
        × Safe
            (IsQuiet m.session_id)
            (λ a. is_ring_for m.session_id a ≡ false)
            (run
              (session_simple
                (local_host o config codec uid moments fresh)
                parsers
                env
                s).0.daemon.engine
              calls)
  unfolding validate_command
  off_silences parsers env m s calls f p e l sound others =
      let id = m.session_id in
      let host = local_host o config codec uid moments fresh in
      let t = prepared o config codec uid moments fresh m s in
      let (there, found) = prepared-find o config codec uid moments fresh m s in
      let (accepted, quiet) =
        disarms_after id t there found (prepared-IsSound m s l sound).engine in
      let sent =
        send_reaches o config codec uid moments fresh (disarm id) cli_timeout t acknowledged
          f.command f.acknowledged refl accepted in
      let all =
        session_simple-steps host parsers env id s t
          (next o config codec uid moments fresh (disarm id) t) _ (metadata-id parsers env m e)
          (prepare_reaches o config codec uid moments fresh parsers env m (disarm id) s f p e)
          sent in
      (
        ap (λ x. x.1) all,
        subst (λ x. Safe (IsQuiet id) (λ a. is_ring_for id a ≡ false) (run x calls))
            (sym (ap (λ x. x.0.daemon.engine) all)) (run-IsQuiet id _ calls others quiet),
      )
