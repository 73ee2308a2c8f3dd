-- ===== src/Activity/Session.antt =====
-- One monitored shell session (crates/shellbell-local/src/activity.rs, lines 5 to 169). A `Uuid` is
-- the number that its bytes spell; times in milliseconds are a u64 on the monotonic clock and an
-- i64 on the wall clock.
use shellbell.Base.{ℕ, List, Option, none, some, Bool, true, false, unwrap_or, if◌then◌else◌}
use shellbell.Base.Int.{ℤ}
use shellbell.Base.Words.{saturating_add, saturating_sub, saturating_sub_i64, u64_try_from}
use shellbell.Base.Text.{Text, codes}
use mathlib.Core.Option

abbrev pub Uuid : Type 0
Uuid = ℕ

pub data ShellType : Type 0 where
  bash zsh fish : ShellType

pub data Mode : Type 0 where
  off persistent once : Mode

pub data SessionState : Type 0 where
  disarmed armed active settling notified : SessionState

-- The three `Display` implementations.
unfoldable pub shell_type_display : ShellType → Text
shell_type_display bash = codes "bash"
shell_type_display zsh = codes "zsh"
shell_type_display fish = codes "fish"

pub mode_display : Mode → Text
mode_display off = codes "off"
mode_display persistent = codes "persistent"
mode_display once = codes "once"

pub session_state_display : SessionState → Text
session_state_display disarmed = codes "disarmed"
session_state_display armed = codes "armed"
session_state_display active = codes "active"
session_state_display settling = codes "settling"
session_state_display notified = codes "notified"

pub record Session : Type 0 where
  pub id : Uuid
  pub shell_pid : ℕ
  pub shell_type : ShellType
  pub tty : Option Text
  pub mode : Mode
  pub state : SessionState
  pub burst_id : Option Uuid
  pub accumulated_active_ms : ℕ
  pub command_started_mono_ms : Option ℕ
  pub settling_deadline_mono_ms : Option ℕ
  pub settling_deadline_wall_ms : Option ℤ
  pub burst_notified : Bool
  pub label : Option Text
  pub targets : List Text
  pub minimum_active_ms : ℕ
  pub idle_for_ms : ℕ
  pub last_seen_wall_ms : ℤ

-- `==` of the derived `PartialEq` on the two enums.
abbrev pub is_off : Mode → Bool
is_off off = true
is_off _ = false

abbrev pub is_once : Mode → Bool
is_once once = true
is_once _ = false

abbrev pub is_active : SessionState → Bool
is_active active = true
is_active _ = false

abbrev pub is_settling : SessionState → Bool
is_settling settling = true
is_settling _ = false

unfoldable pub new : Uuid → ℕ → ShellType → Option Text → ℕ → ℕ → List Text → ℤ → Session
new id shell_pid shell_type tty minimum_active_ms idle_for_ms targets now_wall_ms = record {
  id = id;
  shell_pid = shell_pid;
  shell_type = shell_type;
  tty = tty;
  mode = off;
  state = disarmed;
  burst_id = none;
  accumulated_active_ms = 0;
  command_started_mono_ms = none;
  settling_deadline_mono_ms = none;
  settling_deadline_wall_ms = none;
  burst_notified = false;
  label = none;
  targets = targets;
  minimum_active_ms = minimum_active_ms;
  idle_for_ms = idle_for_ms;
  last_seen_wall_ms = now_wall_ms;
}

unfoldable pub displayed_active_ms : Session → ℕ → ℕ
displayed_active_ms s now_mono_ms = saturating_add s.accumulated_active_ms (
    unwrap_or (Option.map (λ started. saturating_sub now_mono_ms started) s.command_started_mono_ms)
      0)

unfoldable pub reset_burst : Session → Session
reset_burst s = record s {
  burst_id = none;
  accumulated_active_ms = 0;
  command_started_mono_ms = none;
  settling_deadline_mono_ms = none;
  settling_deadline_wall_ms = none;
  burst_notified = false;
}

unfoldable pub reset_after_burst : Session → Session
unfolding reset_burst
reset_after_burst s =
    let t = reset_burst s in
    if is_off t.mode then record t { state = disarmed } else record t { state = armed }

-- The deadline that a settling session gets on the new monotonic clock.
resume_settling : Session → ℕ → ℤ → Option ℤ → Session
unfolding reset_after_burst
resume_settling s now_mono_ms now_wall_ms none = reset_after_burst s
resume_settling s now_mono_ms now_wall_ms (some wall_deadline) = record s {
  settling_deadline_mono_ms = some (
      saturating_add now_mono_ms
        (unwrap_or (u64_try_from (saturating_sub_i64 wall_deadline now_wall_ms)) 0));
}

recover_state : SessionState → Session → ℕ → ℤ → Session
unfolding reset_after_burst resume_settling
recover_state active s now_mono_ms now_wall_ms = reset_after_burst s
recover_state notified s now_mono_ms now_wall_ms = reset_after_burst s
recover_state settling s now_mono_ms now_wall_ms =
    resume_settling s now_mono_ms now_wall_ms s.settling_deadline_wall_ms
recover_state disarmed s now_mono_ms now_wall_ms = s
recover_state armed s now_mono_ms now_wall_ms = s

unfoldable pub recover_live_timing : Session → ℕ → ℤ → Session
unfolding recover_state
recover_live_timing s now_mono_ms now_wall_ms =
    let t = record s { command_started_mono_ms = none; settling_deadline_mono_ms = none } in
    recover_state t.state t now_mono_ms now_wall_ms

-- What the serialised form keeps: the two monotonic times are marked `serde(skip)`.
unfoldable pub persisted : Session → Session
persisted s = record s { command_started_mono_ms = none; settling_deadline_mono_ms = none }
