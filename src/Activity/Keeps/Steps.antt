-- ===== src/Activity/Keeps/Steps.antt =====
-- Each call, and so each history of allowed calls, keeps the condition and does not panic.
use shellbell.Base.{
  ℕ, ◌≡◌, refl, inl, inr, List, [], ◌∷◌, ◌++◌, Option, none, some, Option-cases, Bool-cases, All,
  All-append,
}
use shellbell.Base.Int.{ℤ}
use shellbell.Base.Text.{Text}
use shellbell.Base.OrderedMap.{insert-IsSorted, remove-IsSorted}
use shellbell.Base.OrderedMap.Entries.{Every-insert, Every-remove, Every-get}
use shellbell.Activity.Session.{Uuid, Session, Mode, ShellType}
use shellbell.Activity.Engine.{
  ActivityAction, ActivityEngine, find, session_open, session_close, arm_and_start, arm, disarm,
  set_label, command_start, prompt_ready, label_session,
}
use shellbell.Activity.Rings.{manual_ring, cleanup_stale}
use shellbell.Activity.Tick.{tick-eq-settle_all}
use shellbell.Activity.Trace.{
  Call, opens, closes, arms, disarms, labels, starts, readies, rings_by_hand, ticks, cleans, step,
  run, after_step, Allowed,
}
use shellbell.Activity.Keeps.{
  IsKept, IsHeard, Holds, all_rings-All, manual_ring-All, settle_all-IsSorted, Every-IsKeyed,
  settle_all-Every, modify-Holds, with_session-Holds, remove_all-Holds,
}

-- A result that is no panic, with an engine where `P` holds and rings that satisfy `A`.
abbrev pub Safe :
    (Uuid → Session → Type 0)
    → (ActivityAction → Type 0)
    → Option (ActivityEngine × List ActivityAction)
    → Type 0
Safe P A r = (q : ActivityEngine × List ActivityAction) × (r ≡ some q) × Holds P q.0 × All A q.1

module _ {P : Uuid → Session → Type 0} {may_arm : Uuid → Mode → Type 0}
    (kept : IsKept P may_arm) where
  opens-Holds :
      (e : ActivityEngine) (id : Uuid) (pid : ℕ) (shell : ShellType) (tty : Option Text)
      (minimum idle : ℕ) (targets : List Text) (wall : ℤ)
      → Holds P e
      → Holds P (session_open e id pid shell tty minimum idle targets wall)
  unfolding session_open
  opens-Holds e id pid shell tty minimum idle targets wall w = elim (Option-cases (find e id)) [
    | inl n ↦
        rw (n, session_open)
          (record {
            sorted = insert-IsSorted e.sessions id _ w.sorted;
            every =
                Every-insert P e.sessions id _
                  (kept.opened id pid shell tty minimum idle targets wall) w.every;
          })
    | inr (s, q) ↦
        rw (q, session_open) (modify-Holds P e id _ (λ t. kept.reopened pid shell tty wall id t) w)
  ]

  arms-Holds :
      (e : ActivityEngine) (fresh id : Uuid) (mode : Mode) (minimum idle : ℕ) (targets : List Text)
      (mono : ℕ) (wall : ℤ)
      → may_arm id mode
      → Holds P e
      → Holds P (arm_and_start e fresh id mode minimum idle targets mono wall).0
  unfolding arm_and_start arm command_start
  arms-Holds e fresh id mode minimum idle targets mono wall h w =
      let w' : Holds P (arm e id mode minimum idle targets wall).0 =
        with_session-Holds P e id _ (λ s. kept.armed mode minimum idle targets wall id s h) w in
      elim (Bool-cases (arm e id mode minimum idle targets wall).1) [
        | inl y ↦ rw y (with_session-Holds P _ id _ (kept.started fresh mono wall id) w')
        | inr n ↦ rw n w'
      ]

  by_hand-Holds :
      (e : ActivityEngine) (fresh : Uuid) (id : Option Uuid) (message : Option Text)
      (targets : List Text) (mono : ℕ) (wall : ℤ)
      → Holds P e
      → Holds P (manual_ring e fresh id message targets mono wall).0
  unfolding manual_ring label_session
  by_hand-Holds e fresh none message targets mono wall w = w
  by_hand-Holds e fresh (some id) message targets mono wall w = elim (Option-cases (find e id)) [
    | inl n ↦ rw (n, manual_ring) w
    | inr (s, q) ↦
        rw (q, manual_ring)
          (modify-Holds P e id _ (λ t g. kept.rung fresh id message targets mono id _ (found s q))
            w)
  ]
    where
      found : (s : Session) → find e id ≡ some s → P id (record s { last_seen_wall_ms = wall })
      found s q = kept.labelled s.label wall id s (Every-get P e.sessions id s q w.every)

module _ {P : Uuid → Session → Type 0} {A : ActivityAction → Type 0}
    {may_arm : Uuid → Mode → Type 0} (kept : IsKept P may_arm) (heard : IsHeard P A) where
  pub step-Safe :
      (e : ActivityEngine) (c : Call) → Allowed may_arm c → Holds P e → Safe P A (step e c)
  unfolding step session_close disarm set_label command_start prompt_ready cleanup_stale
  step-Safe e (opens id pid shell tty minimum idle targets wall) p w =
      (_, refl, opens-Holds kept e id pid shell tty minimum idle targets wall w, tt)
  step-Safe e (closes id) p w = (
    _,
    refl,
    record {
      sorted = remove-IsSorted e.sessions id w.sorted;
      every = Every-remove P e.sessions id w.every;
    },
    tt,
  )
  step-Safe e (arms fresh id mode minimum idle targets mono wall) p w =
      (_, refl, arms-Holds kept e fresh id mode minimum idle targets mono wall p w, tt)
  step-Safe e (disarms id wall) p w =
      (_, refl, with_session-Holds P e id _ (kept.disarmed wall id) w, tt)
  step-Safe e (labels id label wall) p w =
      (_, refl, with_session-Holds P e id _ (kept.labelled label wall id) w, tt)
  step-Safe e (starts fresh id mono wall) p w =
      (_, refl, with_session-Holds P e id _ (kept.started fresh mono wall id) w, tt)
  step-Safe e (readies id mono wall) p w =
      (_, refl, with_session-Holds P e id _ (kept.readied mono wall id) w, tt)
  step-Safe e (rings_by_hand fresh id message targets mono wall) p w = (
    _,
    refl,
    by_hand-Holds kept e fresh id message targets mono wall w,
    manual_ring-All heard e fresh id message targets mono wall,
  )
  step-Safe e (ticks uuids mono wall) p w = (
    _,
    tick-eq-settle_all e uuids mono wall w.sorted (Every-IsKeyed kept e.sessions w.every),
    record {
      sorted = settle_all-IsSorted mono wall e.sessions w.sorted;
      every = settle_all-Every kept mono wall e.sessions w.every;
    },
    all_rings-All heard uuids mono e.sessions 0 w.every,
  )
  step-Safe e (cleans cutoff) p w =
      (_, refl, remove_all-Holds P e.sessions (cleanup_stale e cutoff).1 w.sorted w.every, tt)

pub after_step-Safe :
    (P : Uuid → Session → Type 0) (A : ActivityAction → Type 0)
    (next : ActivityEngine → Option (ActivityEngine × List ActivityAction))
    (r : Option (ActivityEngine × List ActivityAction))
    → ((e : ActivityEngine) → Holds P e → Safe P A (next e))
    → Safe P A r
    → Safe P A (after_step next r)
after_step-Safe P A next r h (q, e, w, a) =
    let (q', e', w', a') = h q.0 w in
    rw e (rw (e', after_step) ((q'.0, q.1 ++ q'.1), refl, w', All-append A q.1 q'.1 a a'))

pub run-Safe :
    {P : Uuid → Session → Type 0} {A : ActivityAction → Type 0} {may_arm : Uuid → Mode → Type 0}
    (kept : IsKept P may_arm) (heard : IsHeard P A) (e : ActivityEngine) (cs : List Call)
    → All (Allowed may_arm) cs
    → Holds P e
    → Safe P A (run e cs)
unfolding run
run-Safe kept heard e [] p w = ((e, []), refl, w, tt)
run-Safe {P} {A} kept heard e (c ∷ cs) p w =
    after_step-Safe P A (λ e'. run e' cs) (step e c) (λ e' w'. run-Safe kept heard e' cs p.1 w')
      (step-Safe kept heard e c p.0 w)
