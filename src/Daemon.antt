-- ===== src/Daemon.antt =====
-- The local daemon (crates/shellbell-local/src/daemon.rs): it owns the engine and the store, answers
-- IPC requests, runs the timers, drops stale sessions and delivers rings to the relay. Its mutex makes
-- each of these but a delivery one step. Identifiers, clock readings, the liveness of processes, the
-- jitter of a retry and the relay's answer are arguments. A store error, which ends the daemon, is not
-- modelled.
pub mod Configured
pub mod Connection
pub mod Exchange
pub mod Recovery
pub mod Relaying
pub mod Requests
pub mod Run
use mathlib.Core.Option
use shellbell.Base.{
  ℕ, ◌+◌, ◌*◌, ◌/◌, ◌^◌, ◌≡◌, List, [], ◌∷◌, ◌++◌, map, Option, none, some, Bool, true, false, not,
  ◌&&◌, ◌||◌, ◌==◌, leb, ltb, is_some, is_some_and, if◌then◌else◌, keep_if, length, min, max,
}
use shellbell.Base.Int.{ℤ, pos, leb_ℤ}
use shellbell.Base.Words.{saturating_add, saturating_mul, saturating_sub_i64, saturating_add_i64}
use shellbell.Base.Result.{Result, ok, err, ◌>>=◌, ◌>>◌}
use shellbell.Base.Text.{Text, codes, text_eq}
use shellbell.Base.OrderedMap.{values}
use shellbell.Activity.Session.{Uuid, Session, once, persistent, recover_live_timing}
use shellbell.Activity.Engine.{ActivityAction, ActivityEngine, from_sessions, find, session_close}
use shellbell.Activity.Engine
use shellbell.Activity.Rings
use shellbell.Activity.Rings.{tick, cleanup_stale, remove_all}
use shellbell.Config.{EffectiveConfig}
use shellbell.LocalStore.Queue.{OldestFirst, as_i64}
use shellbell.LocalStore.Store.{
  Store, QueuedRing, save_sessions, load_sessions, save_sessions_and_enqueue, expire_old, next_due,
  mark_delivered, mark_retry, mark_authorization_failure, discard_permanent, daemon_status,
}
use shellbell.Ipc.{
  IpcCommand, IpcRequest, IpcError, IpcResult, session_open, command_start, prompt_ready,
  session_close as closes, arm_persistent, arm_once, disarm, set_label, status, manual_ring,
  daemon_ping, daemon_shutdown, version_mismatch, not_registered, acknowledged, session_status,
  ring_queued, pong, from_session, ipc_version,
}

-- The state that the daemon's tasks share.
pub record Daemon : Type 0 where
  pub engine : ActivityEngine
  pub store : Store
  pub stopping : Bool

abbrev pub session_stale_after_ms : ℕ
session_stale_after_ms = 86400000

-- The sessions that survive a restart: their shell lives, and they were seen within a day.
unfoldable pub is_recoverable : (ℕ → Bool) → ℤ → Session → Bool
is_recoverable pid_is_alive now_wall s =
    pid_is_alive s.shell_pid
    && leb_ℤ (saturating_sub_i64 now_wall s.last_seen_wall_ms) (as_i64 session_stale_after_ms)

-- The start of `run_daemon_until`.
unfoldable pub start : (ℕ → Bool) → ℤ → Store → Daemon
unfolding is_recoverable
start pid_is_alive now_wall store =
    let sessions =
      map (λ s. recover_live_timing s 0 now_wall)
        (keep_if (is_recoverable pid_is_alive now_wall) (load_sessions store)) in
    let engine = from_sessions sessions in
    record {
      engine = engine;
      store = save_sessions store (values engine.sessions);
      stopping = false;
    }

-- The end of `run_daemon_until`: the sessions are saved once more.
unfoldable pub stop : Daemon → Daemon
stop d = record d { store = save_sessions d.store (values d.engine.sessions) }

abbrev pub Answer : Type 0
Answer = Daemon × Result IpcError IpcResult

-- `require_session(found)?`, then the save at the end of `handle_request`. The engine stays as the
-- operation left it also where the session was not found.
unfoldable pub finish : Daemon → ActivityEngine × Bool → Answer
finish d (engine, found) =
    if found
    then (
      record d { engine = engine; store = save_sessions d.store (values engine.sessions) },
      ok acknowledged,
    )
    else (record d { engine = engine }, err not_registered)

-- The ring of `IpcCommand::ManualRing`, if there is one.
unfoldable pub finish_ring :
    OldestFirst → EffectiveConfig → Daemon → ℤ → ActivityEngine × Option ActivityAction → Answer
finish_ring o config d now_wall (engine, none) = (
  record d { engine = engine; store = save_sessions d.store (values engine.sessions) },
  ok (ring_queued none),
)
finish_ring o config d now_wall (engine, some action) = (
  record d {
    engine = engine;
    store =
        save_sessions_and_enqueue o d.store (values engine.sessions) (action ∷ []) now_wall
          config.queue_limit config.event_max_age_ms;
  },
  ok (ring_queued (some action.event_id)),
)

unfoldable pub finish_status : Daemon → ℕ → Option Session → Answer
finish_status d now_mono none = (d, err not_registered)
finish_status d now_mono (some s) = (d, ok (session_status (from_session s now_mono)))

unfoldable pub handle_command :
    OldestFirst → EffectiveConfig → Daemon → Uuid → ℕ → ℤ → IpcCommand → Answer
unfolding finish finish_ring finish_status
handle_command o config d fresh now_mono now_wall (session_open id pid shell tty) = finish d (
  Engine.session_open d.engine id pid shell tty config.minimum_active_ms config.idle_for_ms
      config.targets now_wall,
  true,
)
handle_command o config d fresh now_mono now_wall (command_start id) =
    finish d (Engine.command_start d.engine fresh id now_mono now_wall)
handle_command o config d fresh now_mono now_wall (prompt_ready id) =
    finish d (Engine.prompt_ready d.engine id now_mono now_wall)
handle_command o config d fresh now_mono now_wall (closes id) =
    finish d ((session_close d.engine id).0, true)
handle_command o config d fresh now_mono now_wall (arm_persistent id minimum idle targets) =
    finish d
      (Engine.arm_and_start d.engine fresh id persistent minimum idle targets now_mono now_wall)
handle_command o config d fresh now_mono now_wall (arm_once id minimum idle targets) =
    finish d (Engine.arm_and_start d.engine fresh id once minimum idle targets now_mono now_wall)
handle_command o config d fresh now_mono now_wall (disarm id) =
    finish d (Engine.disarm d.engine id now_wall)
handle_command o config d fresh now_mono now_wall (set_label id label) =
    finish d (Engine.set_label d.engine id label now_wall)
handle_command o config d fresh now_mono now_wall (status id) =
    finish_status d now_mono (find d.engine id)
handle_command o config d fresh now_mono now_wall (manual_ring id message targets) =
    finish_ring o config d now_wall
      (Rings.manual_ring d.engine fresh id message targets now_mono now_wall)
handle_command o config d fresh now_mono now_wall daemon_ping =
    (d, ok (pong (daemon_status d.store (length (values d.engine.sessions)))))
handle_command o config d fresh now_mono now_wall daemon_shutdown =
    (record d { stopping = true }, ok acknowledged)

unfoldable pub handle_request :
    OldestFirst → EffectiveConfig → Daemon → Uuid → ℕ → ℤ → IpcRequest → Answer
unfolding handle_command
handle_request o config d fresh now_mono now_wall request =
    if request.version == ipc_version
    then handle_command o config d fresh now_mono now_wall request.command
    else (d, err version_mismatch)

-- The configured text takes the place of the default one.
unfoldable pub use_configured : Text → ActivityAction → ActivityAction
use_configured text action =
    if action.automatic && is_some_and action.message (λ m. text_eq m (codes "Shell is ready"))
    then record action { message = some text }
    else action

unfoldable pub save_rings :
    OldestFirst → EffectiveConfig → Daemon → ActivityEngine → List ActivityAction → ℤ → Daemon
save_rings o config d engine [] now_wall = record d { engine = engine }
save_rings o config d engine (a ∷ actions) now_wall = record d {
  engine = engine;
  store =
      save_sessions_and_enqueue o d.store (values engine.sessions) (a ∷ actions) now_wall
        config.queue_limit config.event_max_age_ms;
}

-- `none` is the panic of `tick`.
unfoldable pub process_timers :
    OldestFirst → EffectiveConfig → Daemon → (ℕ → Uuid) → ℕ → ℤ → Option Daemon
unfolding use_configured save_rings
process_timers o config d uuids now_mono now_wall =
    Option.map
      (λ r. save_rings o config d r.0 (map (use_configured config.automatic_message) r.1) now_wall)
      (tick d.engine uuids now_mono now_wall)

-- `if changed { save_sessions }`
unfoldable pub save_if_removed : List Uuid → Store → List Session → Store
save_if_removed [] store sessions = store
save_if_removed (id ∷ ids) store sessions = save_sessions store sessions

unfoldable pub cleanup : EffectiveConfig → Daemon → List Uuid → ActivityEngine → ℤ → Daemon
unfolding save_if_removed
cleanup config d removed engine now = record d {
  engine = engine;
  store =
      (expire_old (save_if_removed removed d.store (values engine.sessions)) now
        config.event_max_age_ms).0;
}

unfoldable pub cleanup_sessions : EffectiveConfig → Daemon → (ℕ → Bool) → ℤ → Daemon
unfolding cleanup
cleanup_sessions config d pid_is_alive now =
    let (engine, removed) =
      cleanup_stale d.engine (saturating_sub_i64 now (as_i64 session_stale_after_ms)) in
    let dead =
      map (λ s. s.id) (keep_if (λ s. not (pid_is_alive s.shell_pid)) (values engine.sessions)) in
    cleanup config d (removed ++ dead) (record { sessions = remove_all engine.sessions dead }) now

-- What became of a submission: the answer's status code with the event that an accepted answer
-- names, or what went wrong before there was an answer.
pub data Submission : Type 0 where
  no_credentials : Text → Submission
  bad_endpoint : Submission
  not_sent : Text → Submission
  answered : ℕ → Option Uuid → Text → Submission

pub data DeliveryResult : Type 0 where
  accepted : DeliveryResult
  authorization_failure : Text → DeliveryResult
  permanent_failure : DeliveryResult
  transient_failure : Text → DeliveryResult

-- The classification in `submit_ring`.
unfoldable pub classify : Uuid → Submission → DeliveryResult
classify event_id (no_credentials error) = transient_failure error
classify event_id bad_endpoint = permanent_failure
classify event_id (not_sent error) = transient_failure error
classify event_id (answered code named text) =
    if leb 200 code && ltb code 300
    then if is_some_and named (λ id. id == event_id)
      then accepted
      else transient_failure (codes "relay returned an invalid response")
    else if code == 401 || code == 403
    then authorization_failure text
    else if code == 429 || (leb 500 code && ltb code 600)
    then transient_failure text
    else permanent_failure

-- Before the jitter: five seconds, doubled with each attempt up to the eighth, at most 15 minutes.
unfoldable pub base_delay_ms : ℕ → ℕ
base_delay_ms attempts = min (saturating_mul 5000 (2 ^ min attempts 8)) 900000

-- The jitter is a random number up to a quarter of the base.
unfoldable pub retry_delay : ℕ → ℕ → ℕ
unfolding base_delay_ms
retry_delay attempts jitter = saturating_add (base_delay_ms attempts) jitter

unfoldable pub settle_delivery : DeliveryResult → Store → QueuedRing → ℤ → ℕ → Store
unfolding retry_delay
settle_delivery accepted st event now jitter = mark_delivered st event.event_id
settle_delivery (authorization_failure diagnostic) st event now jitter =
    mark_authorization_failure st event.event_id diagnostic
settle_delivery permanent_failure st event now jitter = discard_permanent st event.event_id
settle_delivery (transient_failure diagnostic) st event now jitter =
    mark_retry st event.event_id
      (saturating_add_i64 now (as_i64 (retry_delay event.attempts jitter))) diagnostic

unfoldable pub deliver_to : (QueuedRing → Submission) → ℤ → ℕ → Store × Option QueuedRing → Store
unfolding classify settle_delivery
deliver_to submit now jitter (st, none) = st
deliver_to submit now jitter (st, some event) =
    settle_delivery (classify event.event_id (submit event)) st event now jitter

unfoldable pub deliver_one :
    OldestFirst → EffectiveConfig → Daemon → (QueuedRing → Submission) → ℤ → ℕ → Daemon
unfolding deliver_to
deliver_one o config d submit now jitter = record d {
  store = deliver_to submit now jitter (next_due o d.store now config.event_max_age_ms);
}
