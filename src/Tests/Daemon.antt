-- ===== src/Tests/Daemon.antt =====
-- A daemon with an empty store, a shell that opens, is armed and comes back to its prompt, a timer
-- that rings, a delivery that fails, and a restart.
use shellbell.Base.{
  ℕ, ◌+◌, ◌*◌, ◌≡◌, ◌≤◌, ◌↔◌, refl, List, [], ◌∷◌, Option, none, some, Bool, true, false, arith,
}
use shellbell.Base.Int.{pos}
use shellbell.Base.Text.{Text, codes}
use shellbell.Activity.Session.{bash}
use shellbell.Ipc.{IpcCommand, IpcRequest, session_open, prompt_ready, arm_once, ipc_version}
use shellbell.Config.{EffectiveConfig}
use shellbell.Daemon.{Daemon, answered}
use shellbell.Ipc.Accepts.{IsAcceptable, validate-IsAcceptable}
use shellbell.Daemon.Run.{
  Event, requests, timers, deliveries, stops, restarts, run_daemon, Survives, run_daemon_sound,
}
use shellbell.Tests.LocalStore.{oldest_first}

abbrev config : EffectiveConfig
config = record {
  minimum_active_ms = 1000;
  idle_for_ms = 500;
  targets = codes "phone" ∷ [];
  automatic_message = codes "Shell is ready";
  queue_limit = 2;
  event_max_age_ms = 60000;
}

abbrev pub empty_daemon : Daemon
empty_daemon = record {
  engine = record { sessions = [] };
  store = record { saved = []; queue = record { rows = []; dropped_events = none } };
  stopping = false;
}

abbrev asks : IpcCommand → IpcRequest
asks c = record { version = ipc_version; request_id = 1; command = c }

abbrev pub events : List Event
events =
    requests 10 0 (pos 100000) (asks (session_open 7 42 bash none))
    ∷ requests 11 10 (pos 100010) (asks (arm_once 7 1000 500 []))
    ∷ requests 12 2000 (pos 102000) (asks (prompt_ready 7))
    ∷ timers (λ i. 20 + i) 2600 (pos 102600)
    ∷ deliveries (λ r. answered 503 none (codes "relay returned HTTP 503")) (pos 102700) 0
    ∷ stops
    ∷ restarts (λ pid. true) (pos 103000)
    ∷ []

run_daemon_sound_example : Survives 2 (run_daemon oldest_first config empty_daemon events)
run_daemon_sound_example =
    run_daemon_sound oldest_first config empty_daemon events (omega arith)
      (record { engine = record { sorted = tt; every = tt }; saved = tt; queue = omega arith })

validate-IsAcceptable_example :
    (ipc_version ≡ ipc_version) × IsAcceptable (arm_once 7 1000 500 (codes "phone" ∷ []))
unfolding shellbell.Ipc.validate shellbell.Ipc.validate_command shellbell.Ipc.validate_arming
    shellbell.Ipc.validate_duration shellbell.Protocol.validate_tags shellbell.Protocol.collect_tags
    shellbell.Base.Text.text_eq shellbell.Base.any
validate-IsAcceptable_example =
    validate-IsAcceptable (asks (arm_once 7 1000 500 (codes "phone" ∷ []))) refl
