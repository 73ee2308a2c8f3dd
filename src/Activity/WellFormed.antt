-- ===== src/Activity/WellFormed.antt =====
-- Well-formed engines over a history of calls.
use shellbell.Base.{◌≡◌, refl, List, true, false, All, is_some, is_some_and, leb, arith}
use shellbell.Base.Words.{u64_max}
use shellbell.Activity.Session.{Uuid, Session, is_off, new}
use shellbell.Activity.Engine.{
  ActivityAction, ActivityEngine, reopen_session, arm_session, disarm_session, label_session,
  start_session, ready_session,
}
use shellbell.Activity.Rings.{ring_session, settle, automatic_action}
use shellbell.Activity.Invariant.{
  IsConsistent, new-IsConsistent, reopen_session-IsConsistent, arm_session-IsConsistent,
  disarm_session-IsConsistent, label_session-IsConsistent, start_session-IsConsistent,
  ready_session-IsConsistent, ring_session-IsConsistent, settle-IsConsistent,
}
use shellbell.Activity.Trace.{Call, run, IsProper}
use shellbell.Activity.Keeps.{IsKept, IsHeard, Holds}
use shellbell.Activity.Keeps.Steps.{Safe, run-Safe}

-- A session under its own identifier, and consistent.
abbrev pub IsGood : Uuid → Session → Type 0
IsGood k s = (s.id ≡ k) × IsConsistent s

-- An automatic ring names its session, carries a message, and reports a duration that fits a u64.
abbrev pub IsComplete : ActivityAction → Type 0
IsComplete a =
    a.automatic ≡ true
    → (is_some a.session_id ≡ true)
      × (is_some a.message ≡ true)
      × (is_some_and a.active_duration_ms (λ d. leb d u64_max) ≡ true)

pub IsGood-kept : IsKept IsGood (λ id mode. is_off mode ≡ false)
unfolding new reopen_session arm_session disarm_session label_session start_session ready_session
    ring_session settle
IsGood-kept = record {
  keyed = λ k s g. g.0;
  opened = λ k pid shell tty minimum idle targets wall.
      (refl, new-IsConsistent k pid shell tty minimum idle targets wall);
  reopened =
      λ pid shell tty wall k s g. (g.0, reopen_session-IsConsistent pid shell tty wall s g.1);
  armed = λ mode minimum idle targets wall k s h g.
      (g.0, arm_session-IsConsistent mode minimum idle targets wall s h);
  disarmed = λ wall k s g. (g.0, disarm_session-IsConsistent wall s);
  labelled = λ label wall k s g. (g.0, label_session-IsConsistent label wall s g.1);
  started = λ fresh mono wall k s g.
      (ground (arith, g.0), start_session-IsConsistent fresh mono wall s g.1);
  readied = λ mono wall k s g. (ground (arith, g.0), ready_session-IsConsistent mono wall s g.1);
  rung = λ fresh id message targets mono k s g.
      (ground (arith, g.0), ring_session-IsConsistent fresh id message targets mono s g.1);
  settled = λ wall k s g. (ground (arith, g.0), settle-IsConsistent wall s g.1);
}

IsComplete-of_good :
    (fresh : Uuid) (s : Session) → IsConsistent s → IsComplete (automatic_action fresh s)
unfolding automatic_action
IsComplete-of_good fresh s c = λ _. (refl, refl, ground arith)

pub IsGood-heard : IsHeard IsGood IsComplete
IsGood-heard = record {
  by_hand = λ a h k. ground arith;
  by_tick = λ fresh mono k s g due r. IsComplete-of_good fresh s g.1;
}

-- From a well-formed engine, whatever proper calls come and in whatever order, no call panics, the
-- engine stays well formed (its map sorted, every session under its own identifier and consistent),
-- and every automatic ring is complete.
pub run_well_formed :
    (e : ActivityEngine) (calls : List Call)
    → All IsProper calls
    → Holds IsGood e
    → Safe IsGood IsComplete (run e calls)
run_well_formed e calls p w = run-Safe IsGood-kept IsGood-heard e calls p w
