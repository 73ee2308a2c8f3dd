-- ===== src/Activity/Quiet.antt =====
-- Disarmed sessions over a history of calls.
use shellbell.Base.{ℕ, ◌≡◌, ◌≢◌, refl, List, Bool, true, false, All, ◌==◌, ◌&&◌, is_some_and, arith}
use shellbell.Base.Int.{ℤ}
use shellbell.Activity.Session.{Uuid, Session, is_off, is_once, new}
use shellbell.Activity.Engine.{
  ActivityAction, ActivityEngine, reopen_session, arm_session, disarm_session, label_session,
  start_session, ready_session,
}
use shellbell.Activity.Rings.{ring_session, settle, rings, is_due, automatic_action}
use shellbell.Activity.Invariant.{is_disarmed}
use shellbell.Activity.Trace.{Call, run, Allowed}
use shellbell.Activity.Keeps.{IsKept, IsHeard, Holds}
use shellbell.Activity.Keeps.Steps.{Safe, run-Safe}
use shellbell.Activity.WellFormed.{IsGood, IsGood-kept}

-- The session `k`, if the engine has it, is disarmed.
abbrev pub IsQuiet : Uuid → Uuid → Session → Type 0
IsQuiet k j s = IsGood j s × (j ≡ k → is_disarmed s.state ≡ true)

-- An automatic ring for the session `k`.
abbrev pub is_ring_for : Uuid → ActivityAction → Bool
is_ring_for k a = a.automatic && is_some_and a.session_id (λ j. j == k)

-- A call that may arm any session but `k`.
abbrev pub ArmsOther : Uuid → Call → Type 0
ArmsOther k = Allowed (λ id mode. (is_off mode ≡ false) × (id ≢ k))

pub IsQuiet-kept : (k : Uuid) → IsKept (IsQuiet k) (λ id mode. (is_off mode ≡ false) × (id ≢ k))
unfolding new reopen_session arm_session disarm_session label_session start_session ready_session
    ring_session settle
IsQuiet-kept k = record {
  keyed = λ j s g. g.0.0;
  opened = λ j pid shell tty minimum idle targets wall.
      (IsGood-kept.opened j pid shell tty minimum idle targets wall, λ _. refl);
  reopened = λ pid shell tty wall j s g. (IsGood-kept.reopened pid shell tty wall j s g.0, g.1);
  armed = λ mode minimum idle targets wall j s h g.
      (IsGood-kept.armed mode minimum idle targets wall j s h.0 g.0, λ e. absurd (h.1 e));
  disarmed = λ wall j s g. (IsGood-kept.disarmed wall j s g.0, λ _. refl);
  labelled = λ label wall j s g. (IsGood-kept.labelled label wall j s g.0, g.1);
  started = λ fresh mono wall j s g.
      (IsGood-kept.started fresh mono wall j s g.0, λ e. ground (arith, g.1 e));
  readied = λ mono wall j s g. (IsGood-kept.readied mono wall j s g.0, λ e. ground (arith, g.1 e));
  rung = λ fresh id message targets mono j s g.
      (IsGood-kept.rung fresh id message targets mono j s g.0, λ e. ground (arith, g.1 e));
  settled = λ wall j s g. (IsGood-kept.settled wall j s g.0, λ e. ground (arith, g.1 e, g.0.1));
}

due_not_disarmed : (mono : ℕ) (s : Session) → is_due mono s ≡ true → is_disarmed s.state ≡ false
unfolding is_due
due_not_disarmed mono s h = ground arith

pub IsQuiet-heard : (k : Uuid) → IsHeard (IsQuiet k) (λ a. is_ring_for k a ≡ false)
unfolding automatic_action
IsQuiet-heard k = record {
  by_hand = λ a h. ground arith;
  by_tick = λ fresh mono j s g due r. ground (arith, g.0.0, g.1, due_not_disarmed mono s due);
}

-- From a well-formed engine where the session `k` is disarmed or missing, a history of proper calls
-- that never arms `k` runs without a panic, makes no automatic ring for `k`, and leaves the engine
-- well formed with `k` disarmed or missing.
pub run-IsQuiet :
    (k : Uuid) (e : ActivityEngine) (calls : List Call)
    → All (ArmsOther k) calls
    → Holds (IsQuiet k) e
    → Safe (IsQuiet k) (λ a. is_ring_for k a ≡ false) (run e calls)
run-IsQuiet k e calls p w = run-Safe (IsQuiet-kept k) (IsQuiet-heard k) e calls p w

-- A due session in mode `Once` that rings is off and disarmed afterwards, and so quiet.
pub settle_once :
    (wall : ℤ) (s : Session)
    → is_once s.mode ≡ true
    → rings s ≡ true
    → (is_off (settle wall s).mode ≡ true) × (is_disarmed (settle wall s).state ≡ true)
unfolding settle
settle_once wall s o r = ground arith
