-- ===== src/Activity/Finds.antt =====
-- What the engine has for a session after it was opened, armed or disarmed
-- (crates/shellbell-local/src/activity.rs).

use shellbell.Base.{ℕ, ◌≡◌, ◌==◌, refl, inl, inr, List, Option, some, true, arith, Option-cases}
use shellbell.Base.Int.{ℤ}
use shellbell.Base.Text.{Text}
use shellbell.Base.OrderedMap.{get, get-insert, get-modify}
use shellbell.Activity.Session.{Uuid, ShellType, Mode, off, active, disarmed, Session, new}
use shellbell.Activity.Engine.{
  ActivityEngine, find, with_session, session_open, reopen_session, arm, arm_session, disarm,
  disarm_session, command_start, start_session, arm_and_start,
}

pub find-with_session :
    (e : ActivityEngine) (id : Uuid) (f : Session → Session) (t : Session)
    → find e id ≡ some t
    → ((with_session e id f).1 ≡ true) × (find (with_session e id f).0 id ≡ some (f t))
unfolding find with_session
find-with_session e id f t h =
    let same : (id == id) ≡ true = ground arith in
    (rw (h, with_session) refl, rw (h, with_session) (rw get-modify (rw same (rw h refl))))

pub find-session_open :
    (e : ActivityEngine) (id : Uuid) (pid : ℕ) (shell : ShellType) (tty : Option Text)
    (minimum idle : ℕ) (targets : List Text) (wall : ℤ)
    → (t : Session) × (find (session_open e id pid shell tty minimum idle targets wall) id ≡ some t)
unfolding find session_open
find-session_open e id pid shell tty minimum idle targets wall =
    let same : (id == id) ≡ true = ground arith in
    elim (Option-cases (get e.sessions id)) [
      | inl n ↦ (
        new id pid shell tty minimum idle targets wall,
        rw (n, session_open) (rw get-insert (rw same refl)),
      )
      | inr (t, h) ↦ (
        reopen_session pid shell tty wall t,
        rw (h, session_open) (rw get-modify (rw same (rw h refl))),
      )
    ]

-- A session that was just armed, and runs the command that armed it.
pub record IsArmed (mode : Mode) (minimum idle : ℕ) (targets : List Text) (fresh : Uuid)
    (t : Session) : Type 0 where
  pub mode_is : t.mode ≡ mode
  pub minimum_is : t.minimum_active_ms ≡ minimum
  pub idle_is : t.idle_for_ms ≡ idle
  pub targets_are : t.targets ≡ targets
  pub is_running : t.state ≡ active
  pub burst_is : t.burst_id ≡ some fresh

pub find-arm_and_start :
    (e : ActivityEngine) (fresh id : Uuid) (mode : Mode) (minimum idle : ℕ) (targets : List Text)
    (mono : ℕ) (wall : ℤ) (s : Session)
    → find e id ≡ some s
    → ((arm_and_start e fresh id mode minimum idle targets mono wall).1 ≡ true)
      × ((t : Session) × (find (arm_and_start e fresh id mode minimum idle targets mono wall).0 id
            ≡ some t)
          × IsArmed mode minimum idle targets fresh t)
unfolding arm_and_start arm command_start start_session arm_session
find-arm_and_start e fresh id mode minimum idle targets mono wall s h =
    let (y, k) = find-with_session e id (arm_session mode minimum idle targets wall) s h in
    let (z, l) =
      find-with_session (arm e id mode minimum idle targets wall).0 id
        (start_session fresh mono wall) (arm_session mode minimum idle targets wall s) k in
    (
      rw (y, arm_and_start) z,
      (
        start_session fresh mono wall (arm_session mode minimum idle targets wall s),
        rw (y, arm_and_start) l,
        record {
          mode_is = refl;
          minimum_is = refl;
          idle_is = refl;
          targets_are = refl;
          is_running = refl;
          burst_is = refl;
        },
      ),
    )

pub find-disarm :
    (e : ActivityEngine) (id : Uuid) (wall : ℤ) (s : Session)
    → find e id ≡ some s
    → ((disarm e id wall).1 ≡ true)
      × ((t : Session) × (find (disarm e id wall).0 id ≡ some t)
          × (t.mode ≡ off)
          × (t.state ≡ disarmed))
unfolding disarm disarm_session
find-disarm e id wall s h =
    let (y, k) = find-with_session e id (disarm_session wall) s h in
    (y, (disarm_session wall s, k, refl, refl))
