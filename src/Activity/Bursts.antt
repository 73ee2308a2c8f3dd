-- ===== src/Activity/Bursts.antt =====
-- One session through a burst of commands: the active time adds up, the deadline is that of the last
-- prompt, and `tick` rings at the deadline and not before.
use shellbell.Base.{
  ℕ, ◌+◌, ◌∙◌, ap, ◌-◌, ◌≡◌, ◌≤◌, ◌⊎◌, inl, inr, List, [], ◌∷◌, some, false, leb, arith,
}
use shellbell.Base.Int.{ℤ}
use shellbell.Base.Words.{u64_max, saturating_add, saturating_sub}
use shellbell.Activity.Session.{Uuid, Session, armed, settling}
use shellbell.Activity.Engine.{start_session, ready_session}
use shellbell.Activity.Rings.{is_due, rings}
use shellbell.Activity.Invariant.{
  IsConsistent, start_session-IsConsistent, ready_session-IsConsistent,
}

-- A foreground command: when it starts and when its prompt comes, on both clocks.
pub record Command : Type 0 where
  pub fresh : Uuid
  pub start : ℕ
  pub start_wall : ℤ
  pub finish : ℕ
  pub finish_wall : ℤ

unfoldable pub run_command : Command → Session → Session
run_command c s =
    ready_session c.finish c.finish_wall (start_session c.fresh c.start c.start_wall s)

unfoldable pub run_commands : List Command → Session → Session
run_commands [] s = s
run_commands (c ∷ cs) s = run_commands cs (run_command c s)

unfoldable pub total_ms : List Command → ℕ
total_ms [] = 0
total_ms (c ∷ cs) = (c.finish - c.start) + total_ms cs

abbrev pub IsReady : Session → Type 0
IsReady s = IsConsistent s × ((s.state ≡ armed) ⊎ (s.state ≡ settling))

-- What a command leaves alone.
record Same (s t : Session) : Type 0 where
  rung : t.burst_notified ≡ s.burst_notified
  minimum : t.minimum_active_ms ≡ s.minimum_active_ms
  idle : t.idle_for_ms ≡ s.idle_for_ms

run_command_settling : (c : Command) (s : Session) → IsReady s → (run_command c s).state ≡ settling
unfolding run_command start_session ready_session
run_command_settling c s (k, inl e) = ground arith
run_command_settling c s (k, inr e) = ground arith

run_command-IsReady : (c : Command) (s : Session) → IsReady s → IsReady (run_command c s)
unfolding run_command
run_command-IsReady c s r = (
  ready_session-IsConsistent c.finish c.finish_wall _
      (start_session-IsConsistent c.fresh c.start c.start_wall s r.0),
  inr (run_command_settling c s r),
)

-- The first command of a burst finds it empty, so nothing is lost where it clears it.
run_command-Same : (c : Command) (s : Session) → IsReady s → Same s (run_command c s)
unfolding run_command start_session ready_session
run_command-Same c s (k, inl e) = ground arith
run_command-Same c s (k, inr e) = ground arith

run_command_active :
    (c : Command) (s : Session)
    → IsReady s
    → s.accumulated_active_ms + (c.finish - c.start) ≤ u64_max
    → (run_command c s).accumulated_active_ms ≡ s.accumulated_active_ms + (c.finish - c.start)
unfolding run_command start_session ready_session saturating_add saturating_sub
run_command_active c s (k, inl e) h = ground arith
run_command_active c s (k, inr e) h = ground arith

run_command_deadline :
    (c : Command) (s : Session)
    → IsReady s
    → (run_command c s).settling_deadline_mono_ms ≡ some (saturating_add c.finish s.idle_for_ms)
unfolding run_command start_session ready_session
run_command_deadline c s (k, inl e) = ground arith
run_command_deadline c s (k, inr e) = ground arith

unfoldable pub last_finish : Command → List Command → ℕ
last_finish c [] = c.finish
last_finish c (d ∷ ds) = last_finish d ds

-- A burst: the session after the commands `c ∷ cs`, run from `s`.
record IsBurst (s : Session) (c : Command) (cs : List Command) (t : Session) : Type 0 where
  ready : IsReady t
  state : t.state ≡ settling
  total : t.accumulated_active_ms ≡ s.accumulated_active_ms + total_ms (c ∷ cs)
  deadline : t.settling_deadline_mono_ms ≡ some (saturating_add (last_finish c cs) s.idle_for_ms)
  same : Same s t

run_commands-IsBurst :
    (cs : List Command) (c : Command) (s : Session)
    → IsReady s
    → s.accumulated_active_ms + total_ms (c ∷ cs) ≤ u64_max
    → IsBurst s c cs (run_commands (c ∷ cs) s)
unfolding run_commands total_ms last_finish
run_commands-IsBurst [] c s r h = record {
  ready = run_command-IsReady c s r;
  state = run_command_settling c s r;
  total = omega (arith, run_command_active c s r (omega arith));
  deadline = run_command_deadline c s r;
  same = run_command-Same c s r;
}
run_commands-IsBurst (d ∷ ds) c s r h =
    let a : (run_command c s).accumulated_active_ms
        ≡ s.accumulated_active_ms + (c.finish - c.start) =
      run_command_active c s r (omega arith) in
    let b : IsBurst (run_command c s) d ds (run_commands (c ∷ d ∷ ds) s) =
      run_commands-IsBurst ds d (run_command c s) (run_command-IsReady c s r) (omega (arith, a)) in
    let k : Same s (run_command c s) = run_command-Same c s r in
    record {
      ready = b.ready;
      state = b.state;
      total = omega (arith, a, b.total);
      deadline = b.deadline ∙ ap (λ x. some (saturating_add (last_finish d ds) x)) k.idle;
      same = record {
        rung = b.same.rung ∙ k.rung;
        minimum = b.same.minimum ∙ k.minimum;
        idle = b.same.idle ∙ k.idle;
      };
    }

-- After a burst of commands from an armed session, while no number passes a u64: the session is due
-- at a time exactly when that is no earlier than the last prompt plus the idle window, and it
-- qualifies to ring exactly when the commands together ran for the minimum active time.
pub burst_rings_exactly :
    (cs : List Command) (c : Command) (s : Session) (now : ℕ)
    → IsConsistent s
    → s.state ≡ armed
    → total_ms (c ∷ cs) ≤ u64_max
    → last_finish c cs + s.idle_for_ms ≤ u64_max
    → (is_due now (run_commands (c ∷ cs) s) ≡ leb (last_finish c cs + s.idle_for_ms) now)
      × (rings (run_commands (c ∷ cs) s) ≡ leb s.minimum_active_ms (total_ms (c ∷ cs)))
unfolding is_due rings saturating_add
burst_rings_exactly cs c s now k e h l =
    let z : s.accumulated_active_ms ≡ 0 = k.fresh (ground arith) in
    let u : s.burst_notified ≡ false = k.unrung (ground arith) in
    let b : IsBurst s c cs (run_commands (c ∷ cs) s) =
      run_commands-IsBurst cs c s (k, inl e) (omega (arith, z)) in
    (ground (arith, b.state, b.deadline), ground (arith, b.total, b.same.rung, b.same.minimum))
