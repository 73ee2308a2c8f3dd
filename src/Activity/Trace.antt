-- ===== src/Activity/Trace.antt =====
-- Histories of calls on the engine, as the daemon makes them, with the rings that they give.
use shellbell.Base.{ℕ, List, [], ◌∷◌, ◌++◌, Option, none, some, false, ◌≡◌}
use shellbell.Base.Int.{ℤ}
use shellbell.Base.Text.{Text}
use shellbell.Activity.Session.{Uuid, ShellType, Mode, is_off}
use shellbell.Activity.Engine.{
  ActivityAction, ActivityEngine, session_open, session_close, arm_and_start, disarm, set_label,
  command_start, prompt_ready,
}
use shellbell.Activity.Rings.{manual_ring, tick, cleanup_stale}

pub data Call : Type 0 where
  opens : Uuid → ℕ → ShellType → Option Text → ℕ → ℕ → List Text → ℤ → Call
  closes : Uuid → Call
  arms : Uuid → Uuid → Mode → ℕ → ℕ → List Text → ℕ → ℤ → Call
  disarms : Uuid → ℤ → Call
  labels : Uuid → Option Text → ℤ → Call
  starts : Uuid → Uuid → ℕ → ℤ → Call
  readies : Uuid → ℕ → ℤ → Call
  rings_by_hand : Uuid → Option Uuid → Option Text → List Text → ℕ → ℤ → Call
  ticks : (ℕ → Uuid) → ℕ → ℤ → Call
  cleans : ℤ → Call

abbrev pub to_list : Option ActivityAction → List ActivityAction
to_list none = []
to_list (some a) = a ∷ []

-- One call: the engine after it and its rings; `none` is a panic.
unfoldable pub step : ActivityEngine → Call → Option (ActivityEngine × List ActivityAction)
step e (opens id pid shell tty minimum idle targets wall) =
    some (session_open e id pid shell tty minimum idle targets wall, [])
step e (closes id) = some ((session_close e id).0, [])
step e (arms fresh id mode minimum idle targets mono wall) =
    some ((arm_and_start e fresh id mode minimum idle targets mono wall).0, [])
step e (disarms id wall) = some ((disarm e id wall).0, [])
step e (labels id label wall) = some ((set_label e id label wall).0, [])
step e (starts fresh id mono wall) = some ((command_start e fresh id mono wall).0, [])
step e (readies id mono wall) = some ((prompt_ready e id mono wall).0, [])
step e (rings_by_hand fresh id message targets mono wall) =
    let (e', action) = manual_ring e fresh id message targets mono wall in some (e', to_list action)
step e (ticks uuids mono wall) = tick e uuids mono wall
step e (cleans cutoff) = some ((cleanup_stale e cutoff).0, [])

abbrev pub after_step :
    (ActivityEngine → Option (ActivityEngine × List ActivityAction))
    → Option (ActivityEngine × List ActivityAction)
    → Option (ActivityEngine × List ActivityAction)
after_step next none = none
after_step next (some (e, actions)) = elim (next e) [
  | none ↦ none
  | some r ↦ some (r.0, actions ++ r.1)
]

unfoldable pub run : ActivityEngine → List Call → Option (ActivityEngine × List ActivityAction)
run e [] = some (e, [])
run e (c ∷ cs) = after_step (λ e'. run e' cs) (step e c)

-- The calls whose arming satisfies a condition on the session and the mode.
abbrev pub Allowed : (Uuid → Mode → Type 0) → Call → Type 0
Allowed may_arm (arms fresh id mode minimum idle targets mono wall) = may_arm id mode
Allowed may_arm _ = Unit

-- The daemon arms a session as `Persistent` or `Once` only.
abbrev pub IsProper : Call → Type 0
IsProper = Allowed (λ id mode. is_off mode ≡ false)
