-- ===== src/Tests/Activity.antt =====
-- The activity engine at a session that settles, and at one that is armed.
use shellbell.Base.{ℕ, ◌+◌, ◌≡◌, refl, inl, List, [], ◌∷◌, none, some, true, false, leb, arith, All}
use shellbell.Base.Int.{pos}
use shellbell.Base.Text.{codes}
use shellbell.Activity.Session.{
  Uuid, Session, bash, off, once, persistent, disarmed, armed, settling,
}
use shellbell.Activity.Engine.{ActivityEngine, ActivityAction}
use shellbell.Activity.Rings.{tick, is_due, rings}
use shellbell.Activity.Invariant.{IsConsistent}
use shellbell.Activity.Tick.{settle_all, all_rings, tick-eq-settle_all}
use shellbell.Activity.Trace.{Call, ticks, starts, readies, run}
use shellbell.Activity.Keeps.Steps.{Safe}
use shellbell.Activity.WellFormed.{IsGood, IsComplete, run_well_formed}
use shellbell.Activity.Once.{tick_once}
use shellbell.Activity.Engine.{ActivityAction}
use shellbell.Activity.Quiet.{IsQuiet, is_ring_for, run-IsQuiet}
use shellbell.Activity.Bursts.{Command, run_commands, total_ms, last_finish, burst_rings_exactly}

abbrev uuids : ℕ → Uuid
uuids n = n + 500

abbrev waiting_session : Session
waiting_session = record {
  id = 7;
  shell_pid = 123;
  shell_type = bash;
  tty = none;
  mode = once;
  state = settling;
  burst_id = some 40;
  accumulated_active_ms = 130000;
  command_started_mono_ms = none;
  settling_deadline_mono_ms = some 175000;
  settling_deadline_wall_ms = some (pos 175000);
  burst_notified = false;
  label = some (codes "build");
  targets = codes "phone" ∷ [];
  minimum_active_ms = 120000;
  idle_for_ms = 45000;
  last_seen_wall_ms = pos 130000;
}

abbrev armed_session : Session
armed_session = record {
  id = 7;
  shell_pid = 123;
  shell_type = bash;
  tty = none;
  mode = persistent;
  state = armed;
  burst_id = none;
  accumulated_active_ms = 0;
  command_started_mono_ms = none;
  settling_deadline_mono_ms = none;
  settling_deadline_wall_ms = none;
  burst_notified = false;
  label = none;
  targets = [];
  minimum_active_ms = 100;
  idle_for_ms = 50;
  last_seen_wall_ms = pos 0;
}

abbrev idle_session : Session
idle_session = record {
  id = 7;
  shell_pid = 123;
  shell_type = bash;
  tty = none;
  mode = off;
  state = disarmed;
  burst_id = none;
  accumulated_active_ms = 0;
  command_started_mono_ms = none;
  settling_deadline_mono_ms = none;
  settling_deadline_wall_ms = none;
  burst_notified = false;
  label = none;
  targets = [];
  minimum_active_ms = 100;
  idle_for_ms = 50;
  last_seen_wall_ms = pos 0;
}

abbrev engine_with : Session → ActivityEngine
engine_with s = record { sessions = (7, s) ∷ [] }

waiting_session-IsConsistent : IsConsistent waiting_session
waiting_session-IsConsistent = ground arith

armed_session-IsConsistent : IsConsistent armed_session
armed_session-IsConsistent = ground arith

idle_session-IsConsistent : IsConsistent idle_session
idle_session-IsConsistent = ground arith

tick-eq-settle_all_example :
    tick (engine_with waiting_session) uuids 175000 (pos 175000)
    ≡ some (
      record { sessions = settle_all 175000 (pos 175000) ((7, waiting_session) ∷ []) },
      all_rings uuids 175000 ((7, waiting_session) ∷ []) 0,
    )
tick-eq-settle_all_example =
    tick-eq-settle_all (engine_with waiting_session) uuids 175000 (pos 175000) (tt, tt) (refl, tt)

abbrev history : List Call
history =
    ticks uuids 180000 (pos 180000)
    ∷ starts 60 7 190000 (pos 190000)
    ∷ readies 7 200000 (pos 200000)
    ∷ ticks uuids 400000 (pos 400000)
    ∷ []

run_well_formed_example : Safe IsGood IsComplete (run (engine_with waiting_session) history)
run_well_formed_example =
    run_well_formed (engine_with waiting_session) history (tt, (tt, (tt, (tt, tt))))
      (record { sorted = (tt, tt); every = ((refl, waiting_session-IsConsistent), tt) })

run-IsQuiet_example :
    Safe (IsQuiet 7) (λ a. is_ring_for 7 a ≡ false) (run (engine_with idle_session) history)
run-IsQuiet_example =
    run-IsQuiet 7 (engine_with idle_session) history (tt, (tt, (tt, (tt, tt))))
      (record { sorted = (tt, tt); every = (((refl, idle_session-IsConsistent), λ _. refl), tt) })

tick_once_example :
    (e' : ActivityEngine) × (actions : List ActivityAction) × (tick
        (engine_with waiting_session)
        uuids
        175000
        (pos 175000)
      ≡ some (e', actions))
    × Safe (IsQuiet 7) (λ a. is_ring_for 7 a ≡ false) (run e' history)
unfolding rings is_due
tick_once_example =
    tick_once 7 (engine_with waiting_session) uuids 175000 (pos 175000) history
      (tt, (tt, (tt, (tt, tt))))
      (record {
        sorted = (tt, tt);
        every = (((refl, waiting_session-IsConsistent), λ _. (refl, refl, refl)), tt);
      })

abbrev first_command : Command
first_command = record {
  fresh = 60;
  start = 1000;
  start_wall = pos 1000;
  finish = 1070;
  finish_wall = pos 1070;
}

abbrev second_command : Command
second_command = record {
  fresh = 61;
  start = 1100;
  start_wall = pos 1100;
  finish = 1140;
  finish_wall = pos 1140;
}

burst_rings_exactly_example :
    (is_due 1190 (run_commands (first_command ∷ second_command ∷ []) armed_session)
      ≡ leb (last_finish first_command (second_command ∷ []) + 50) 1190)
    × (rings (run_commands (first_command ∷ second_command ∷ []) armed_session)
        ≡ leb 100 (total_ms (first_command ∷ second_command ∷ [])))
unfolding total_ms last_finish
burst_rings_exactly_example =
    burst_rings_exactly (second_command ∷ []) first_command armed_session 1190
      armed_session-IsConsistent refl (omega arith) (omega arith)

-- The two commands ran for 110 ms, past the minimum of 100, and the session is due at 1190.
burst_rings_test :
    (is_due 1190 (run_commands (first_command ∷ second_command ∷ []) armed_session) ≡ true)
    × (is_due 1189 (run_commands (first_command ∷ second_command ∷ []) armed_session) ≡ false)
    × (rings (run_commands (first_command ∷ second_command ∷ []) armed_session) ≡ true)
unfolding run_commands shellbell.Activity.Bursts.run_command shellbell.Activity.Engine.start_session
    shellbell.Activity.Engine.ready_session is_due rings shellbell.Base.Words.saturating_add
    shellbell.Base.Words.saturating_sub
burst_rings_test = (refl, refl, refl)
