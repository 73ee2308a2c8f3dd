-- ===== src/Activity/Engine.antt =====
-- The operations on the sessions (crates/shellbell-local/src/activity.rs, lines 171 to 460). The
-- random identifiers of `Uuid::new_v4` are arguments: one for `command_start` and `manual_ring`, a
-- supply for `tick`, whose n-th ring takes `uuids n`.
use mathlib.Core.List.{foldl}
use shellbell.Base.{
  ℕ, List, [], Option, none, some, Bool, true, false, if◌then◌else◌, is_some, unwrap_or,
}
use shellbell.Base.Int.{ℤ, pos}
use shellbell.Base.Words.{i64_max, saturating_add, saturating_sub, saturating_add_i64, i64_try_from}
use shellbell.Base.Text.{Text}
use shellbell.Base.OrderedMap.{OrderedMap, get, insert, remove, modify}
use shellbell.Activity.Session.{
  Uuid, ShellType, Mode, off, SessionState, disarmed, armed, active, settling, notified, Session,
  is_active, new, reset_burst,
}

pub record ActivityAction : Type 0 where
  pub event_id : Uuid
  pub session_id : Option Uuid
  pub message : Option Text
  pub targets : List Text
  pub automatic : Bool
  pub active_duration_ms : Option ℕ

pub record ActivityEngine : Type 0 where
  pub sessions : OrderedMap Session

unfoldable pub from_sessions : List Session → ActivityEngine
from_sessions sessions = record { sessions = foldl (λ m s. insert m s.id s) [] sessions }

-- `self.sessions.get(&id)`
unfoldable pub find : ActivityEngine → Uuid → Option Session
find e id = get e.sessions id

-- `let Some(session) = self.sessions.get_mut(&id) else { return false }; …; true`
unfoldable pub with_session : ActivityEngine → Uuid → (Session → Session) → ActivityEngine × Bool
unfolding find
with_session e id f = elim (find e id) [
  | none ↦ (e, false)
  | some s ↦ (record { sessions = modify e.sessions id f }, true)
]

unfoldable pub reopen_session : ℕ → ShellType → Option Text → ℤ → Session → Session
reopen_session shell_pid shell_type tty now_wall_ms s = record s {
  shell_pid = shell_pid;
  shell_type = shell_type;
  tty = tty;
  last_seen_wall_ms = now_wall_ms;
}

unfoldable pub session_open :
    ActivityEngine → Uuid → ℕ → ShellType → Option Text → ℕ → ℕ → List Text → ℤ → ActivityEngine
unfolding find new reopen_session
session_open e id shell_pid shell_type tty minimum_active_ms idle_for_ms targets now_wall_ms =
    elim (find e id) [
      | none ↦ record {
        sessions =
            insert e.sessions id
              (new id shell_pid shell_type tty minimum_active_ms idle_for_ms targets now_wall_ms);
      }
      | some s ↦ record {
        sessions = modify e.sessions id (reopen_session shell_pid shell_type tty now_wall_ms);
      }
    ]

unfoldable pub session_close : ActivityEngine → Uuid → ActivityEngine × Bool
unfolding find
session_close e id = (record { sessions = remove e.sessions id }, is_some (find e id))

unfoldable pub arm_session : Mode → ℕ → ℕ → List Text → ℤ → Session → Session
unfolding reset_burst
arm_session mode minimum_active_ms idle_for_ms targets now_wall_ms s =
    let t = reset_burst (record s {
      mode = mode;
      minimum_active_ms = minimum_active_ms;
      idle_for_ms = idle_for_ms;
      targets = targets;
      last_seen_wall_ms = now_wall_ms;
    }) in
    record t { state = armed }

unfoldable pub arm : ActivityEngine → Uuid → Mode → ℕ → ℕ → List Text → ℤ → ActivityEngine × Bool
unfolding with_session arm_session
arm e id mode minimum_active_ms idle_for_ms targets now_wall_ms =
    with_session e id (arm_session mode minimum_active_ms idle_for_ms targets now_wall_ms)

unfoldable pub disarm_session : ℤ → Session → Session
unfolding reset_burst
disarm_session now_wall_ms s =
    reset_burst (record s { mode = off; state = disarmed; last_seen_wall_ms = now_wall_ms })

unfoldable pub disarm : ActivityEngine → Uuid → ℤ → ActivityEngine × Bool
unfolding with_session disarm_session
disarm e id now_wall_ms = with_session e id (disarm_session now_wall_ms)

unfoldable pub label_session : Option Text → ℤ → Session → Session
label_session label now_wall_ms s = record s { label = label; last_seen_wall_ms = now_wall_ms }

unfoldable pub set_label : ActivityEngine → Uuid → Option Text → ℤ → ActivityEngine × Bool
unfolding with_session label_session
set_label e id label now_wall_ms = with_session e id (label_session label now_wall_ms)

-- The `match session.state` of `command_start`.
start_in : SessionState → Uuid → ℕ → Session → Session
start_in armed fresh now_mono_ms s = record s {
  burst_id = some fresh;
  accumulated_active_ms = 0;
  burst_notified = false;
  command_started_mono_ms = some now_mono_ms;
  state = active;
}
start_in settling fresh now_mono_ms s = record s {
  settling_deadline_mono_ms = none;
  settling_deadline_wall_ms = none;
  command_started_mono_ms = some now_mono_ms;
  state = active;
}
start_in disarmed fresh now_mono_ms s = s
start_in active fresh now_mono_ms s = s
start_in notified fresh now_mono_ms s = s

unfoldable pub start_session : Uuid → ℕ → ℤ → Session → Session
unfolding start_in
start_session fresh now_mono_ms now_wall_ms s =
    let t = record s { last_seen_wall_ms = now_wall_ms } in start_in t.state fresh now_mono_ms t

unfoldable pub command_start : ActivityEngine → Uuid → Uuid → ℕ → ℤ → ActivityEngine × Bool
unfolding with_session start_session
command_start e fresh id now_mono_ms now_wall_ms =
    with_session e id (start_session fresh now_mono_ms now_wall_ms)

unfoldable pub arm_and_start :
    ActivityEngine → Uuid → Uuid → Mode → ℕ → ℕ → List Text → ℕ → ℤ → ActivityEngine × Bool
unfolding arm command_start
arm_and_start e fresh id mode minimum_active_ms idle_for_ms targets now_mono_ms now_wall_ms =
    let (e', found) = arm e id mode minimum_active_ms idle_for_ms targets now_wall_ms in
    if found then command_start e' fresh id now_mono_ms now_wall_ms else (e', false)

-- `if let Some(started) = session.command_started_mono_ms.take()`
take_started : Option ℕ → ℕ → Session → Session
take_started none now_mono_ms s = s
take_started (some started) now_mono_ms s = record s {
  command_started_mono_ms = none;
  accumulated_active_ms =
      saturating_add s.accumulated_active_ms (saturating_sub now_mono_ms started);
}

unfoldable pub ready_session : ℕ → ℤ → Session → Session
unfolding take_started
ready_session now_mono_ms now_wall_ms s =
    let t = record s { last_seen_wall_ms = now_wall_ms } in
    if is_active t.state
    then record (take_started t.command_started_mono_ms now_mono_ms t) {
      state = settling;
      settling_deadline_mono_ms = some (saturating_add now_mono_ms t.idle_for_ms);
      settling_deadline_wall_ms =
          some
            (saturating_add_i64 now_wall_ms (unwrap_or (i64_try_from t.idle_for_ms) (pos i64_max)));
    }
    else t

unfoldable pub prompt_ready : ActivityEngine → Uuid → ℕ → ℤ → ActivityEngine × Bool
unfolding with_session ready_session
prompt_ready e id now_mono_ms now_wall_ms =
    with_session e id (ready_session now_mono_ms now_wall_ms)
