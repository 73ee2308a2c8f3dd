-- ===== src/Activity/Invariant.antt =====
-- What holds of a session between two operations, and that each operation on one session keeps it.
use shellbell.Base.{ℕ, ◌≡◌, ◌≤◌, Option, Bool, true, false, ◌||◌, List, is_some, arith}
use shellbell.Base.Int.{ℤ}
use shellbell.Base.Words.{u64_max, saturating_add}
use shellbell.Base.Text.{Text}
use shellbell.Activity.Session.{
  Uuid, ShellType, Mode, SessionState, disarmed, notified, Session, is_off, is_once, is_active,
  is_settling, new, recover_live_timing, persisted,
}
use shellbell.Activity.Engine.{
  reopen_session, arm_session, disarm_session, label_session, start_session, ready_session,
}
use shellbell.Activity.Rings.{ring_session, settle}

abbrev pub is_disarmed : SessionState → Bool
is_disarmed disarmed = true
is_disarmed _ = false

abbrev pub is_notified : SessionState → Bool
is_notified notified = true
is_notified _ = false

pub record IsConsistent (s : Session) : Type 0 where
  pub never_notified : is_notified s.state ≡ false
  pub off_disarmed : is_off s.mode ≡ is_disarmed s.state
  pub in_burst : is_some s.burst_id ≡ (is_active s.state || is_settling s.state)
  pub running : is_some s.command_started_mono_ms ≡ is_active s.state
  pub waiting : is_some s.settling_deadline_mono_ms ≡ is_settling s.state
  pub waiting_wall : is_some s.settling_deadline_wall_ms ≡ is_settling s.state
  pub fresh : is_some s.burst_id ≡ false → s.accumulated_active_ms ≡ 0
  pub unrung : is_some s.burst_id ≡ false → s.burst_notified ≡ false
  pub once_unrung : is_once s.mode ≡ true → s.burst_notified ≡ false
  pub in_u64 : s.accumulated_active_ms ≤ u64_max

pub new-IsConsistent :
    (id : Uuid) (pid : ℕ) (shell : ShellType) (tty : Option Text) (minimum idle : ℕ)
    (targets : List Text) (now : ℤ)
    → IsConsistent (new id pid shell tty minimum idle targets now)
unfolding new
new-IsConsistent id pid shell tty minimum idle targets now = ground arith

pub arm_session-IsConsistent :
    (mode : Mode) (minimum idle : ℕ) (targets : List Text) (now : ℤ) (s : Session)
    → is_off mode ≡ false
    → IsConsistent (arm_session mode minimum idle targets now s)
unfolding arm_session
arm_session-IsConsistent mode minimum idle targets now s h = ground arith

pub disarm_session-IsConsistent : (now : ℤ) (s : Session) → IsConsistent (disarm_session now s)
unfolding disarm_session
disarm_session-IsConsistent now s = ground arith

pub label_session-IsConsistent :
    (label : Option Text) (now : ℤ) (s : Session)
    → IsConsistent s
    → IsConsistent (label_session label now s)
unfolding label_session
label_session-IsConsistent label now s c = ground arith

pub start_session-IsConsistent :
    (fresh : Uuid) (mono : ℕ) (wall : ℤ) (s : Session)
    → IsConsistent s
    → IsConsistent (start_session fresh mono wall s)
unfolding start_session
start_session-IsConsistent fresh mono wall s c = ground arith

pub ready_session-IsConsistent :
    (mono : ℕ) (wall : ℤ) (s : Session) → IsConsistent s → IsConsistent (ready_session mono wall s)
unfolding ready_session saturating_add
ready_session-IsConsistent mono wall s c = ground arith

pub ring_session-IsConsistent :
    (fresh id : Uuid) (message : Option Text) (targets : List Text) (mono : ℕ) (s : Session)
    → IsConsistent s
    → IsConsistent (ring_session fresh id message targets mono s).0
unfolding ring_session
ring_session-IsConsistent fresh id message targets mono s c = ground arith

pub settle-IsConsistent : (wall : ℤ) (s : Session) → IsConsistent s → IsConsistent (settle wall s)
unfolding settle
settle-IsConsistent wall s c = ground arith

-- After a restart: the monotonic times are lost, and recovery makes the session whole again.
pub recover-IsConsistent :
    (mono : ℕ) (wall : ℤ) (s : Session)
    → IsConsistent s
    → IsConsistent (recover_live_timing (persisted s) mono wall)
unfolding recover_live_timing persisted
recover-IsConsistent mono wall s c = ground arith

pub reopen_session-IsConsistent :
    (pid : ℕ) (shell : ShellType) (tty : Option Text) (wall : ℤ) (s : Session)
    → IsConsistent s
    → IsConsistent (reopen_session pid shell tty wall s)
unfolding reopen_session
reopen_session-IsConsistent pid shell tty wall s c = ground arith
