-- ===== src/Daemon/Requests.antt =====
-- The daemon after a request.
use shellbell.Base.{
  ℕ, ◌≡◌, ◌≤◌, refl, sym, ◌∙◌, inl, inr, List, [], ◌∷◌, Option, none, some, Bool, true, false, All,
  length, ◌==◌, Bool-cases,
}
use shellbell.Base.Int.{ℤ}
use shellbell.Base.OrderedMap.{values}
use shellbell.Activity.Session.{Uuid, Session, once, persistent}
use shellbell.Activity.Engine.{ActivityAction, ActivityEngine}
use shellbell.Activity.Trace.{
  opens, arms, disarms, labels, starts, readies, rings_by_hand, ticks, cleans, step,
}
use shellbell.Activity.Trace
use shellbell.Activity.Keeps.{Holds}
use shellbell.Activity.Keeps.Steps.{step-Safe}
use shellbell.Activity.WellFormed.{IsGood, IsGood-kept, IsGood-heard}
use shellbell.LocalStore.Queue.{OldestFirst}
use shellbell.LocalStore.Store.{save_sessions, save_sessions_and_enqueue}
use shellbell.LocalStore.Store.Bounds.{queue_limit_kept}
use shellbell.Ipc.{
  IpcCommand, IpcRequest, session_open, command_start, prompt_ready, session_close as closes,
  arm_persistent, arm_once, disarm, set_label, status, manual_ring, daemon_ping, daemon_shutdown,
  ipc_version,
}
use shellbell.Config.{EffectiveConfig}
use shellbell.Daemon.{Daemon, finish, finish_ring, finish_status, handle_command, handle_request}
use mathlib.Core.Path.{subst}
use mathlib.Core.Option.{some-injective}
use shellbell.Daemon.Recovery.{IsSaved, save-IsSaved}

-- The engine is well formed, what is saved are consistent sessions, and the queue is within its limit.
pub record IsSound (limit : ℕ) (d : Daemon) : Type 0 where
  pub engine : Holds IsGood d.engine
  pub saved : All IsSaved d.store.saved
  pub queue : length d.store.queue.rows ≤ limit

pub save-IsSound :
    (limit : ℕ) (d : Daemon) (e : ActivityEngine)
    → IsSound limit d
    → Holds IsGood e
    → IsSound limit (record d { engine = e; store = save_sessions d.store (values e.sessions) })
unfolding save_sessions
save-IsSound limit d e s h = record {
  engine = h;
  saved = save-IsSaved e.sessions h.every;
  queue = s.queue;
}

pub enqueue-IsSound :
    (o : OldestFirst) (limit : ℕ) (d : Daemon) (e : ActivityEngine) (actions : List ActivityAction)
    (now : ℤ) (age : ℕ)
    → 1 ≤ limit
    → IsSound limit d
    → Holds IsGood e
    → IsSound limit (record d {
      engine = e;
      store = save_sessions_and_enqueue o d.store (values e.sessions) actions now limit age;
    })
unfolding save_sessions_and_enqueue save_sessions
enqueue-IsSound o limit d e actions now age l s h = record {
  engine = h;
  saved = save-IsSaved e.sessions h.every;
  queue = queue_limit_kept o d.store (values e.sessions) actions now limit age l s.queue;
}

finish-IsSound :
    (limit : ℕ) (d : Daemon) (r : ActivityEngine × Bool)
    → IsSound limit d
    → Holds IsGood r.0
    → IsSound limit (finish d r).0
unfolding finish
finish-IsSound limit d (e, true) s h = save-IsSound limit d e s h
finish-IsSound limit d (e, false) s h = record { engine = h; saved = s.saved; queue = s.queue }

-- The engine after a call that gives no panic.
pub after :
    (e : ActivityEngine) (c : Trace.Call) (q : ActivityEngine × List ActivityAction)
    → step e c ≡ some q
    → Trace.IsProper c
    → Holds IsGood e
    → Holds IsGood q.0
after e c q k p h =
    let (q', k', h', _) = step-Safe IsGood-kept IsGood-heard e c p h in
    subst (λ (x : ActivityEngine × List ActivityAction). Holds IsGood x.0)
      (some-injective q' q (sym k' ∙ k)) h'

finish_ring-IsSound :
    (o : OldestFirst) (config : EffectiveConfig) (d : Daemon) (wall : ℤ)
    (r : ActivityEngine × Option ActivityAction)
    → 1 ≤ config.queue_limit
    → IsSound config.queue_limit d
    → Holds IsGood r.0
    → IsSound config.queue_limit (finish_ring o config d wall r).0
unfolding finish_ring
finish_ring-IsSound o config d wall (e, none) l s h = save-IsSound config.queue_limit d e s h
finish_ring-IsSound o config d wall (e, some a) l s h =
    enqueue-IsSound o config.queue_limit d e (a ∷ []) wall config.event_max_age_ms l s h

finish_status-IsSound :
    (limit : ℕ) (d : Daemon) (now : ℕ) (found : Option Session)
    → IsSound limit d
    → IsSound limit (finish_status d now found).0
unfolding finish_status
finish_status-IsSound limit d now none s = s
finish_status-IsSound limit d now (some _) s = s

command-IsSound :
    (o : OldestFirst) (config : EffectiveConfig) (d : Daemon) (fresh : Uuid) (mono : ℕ) (wall : ℤ)
    (c : IpcCommand)
    → 1 ≤ config.queue_limit
    → IsSound config.queue_limit d
    → IsSound config.queue_limit (handle_command o config d fresh mono wall c).0
unfolding handle_command step
command-IsSound o config d fresh mono wall (session_open id pid shell tty) l s =
    save-IsSound config.queue_limit d _ s (
      after d.engine
        (opens id pid shell tty config.minimum_active_ms config.idle_for_ms config.targets wall) _
        refl tt s.engine)
command-IsSound o config d fresh mono wall (command_start id) l s =
    finish-IsSound config.queue_limit d _ s
      (after d.engine (starts fresh id mono wall) _ refl tt s.engine)
command-IsSound o config d fresh mono wall (prompt_ready id) l s =
    finish-IsSound config.queue_limit d _ s
      (after d.engine (readies id mono wall) _ refl tt s.engine)
command-IsSound o config d fresh mono wall (closes id) l s =
    save-IsSound config.queue_limit d _ s (after d.engine (Trace.closes id) _ refl tt s.engine)
command-IsSound o config d fresh mono wall (arm_persistent id minimum idle targets) l s =
    finish-IsSound config.queue_limit d _ s (
      after d.engine (arms fresh id persistent minimum idle targets mono wall) _ refl refl s.engine)
command-IsSound o config d fresh mono wall (arm_once id minimum idle targets) l s =
    finish-IsSound config.queue_limit d _ s
      (after d.engine (arms fresh id once minimum idle targets mono wall) _ refl refl s.engine)
command-IsSound o config d fresh mono wall (disarm id) l s =
    finish-IsSound config.queue_limit d _ s (after d.engine (disarms id wall) _ refl tt s.engine)
command-IsSound o config d fresh mono wall (set_label id label) l s =
    finish-IsSound config.queue_limit d _ s
      (after d.engine (labels id label wall) _ refl tt s.engine)
command-IsSound o config d fresh mono wall (status id) l s =
    finish_status-IsSound config.queue_limit d mono _ s
command-IsSound o config d fresh mono wall (manual_ring id message targets) l s =
    finish_ring-IsSound o config d wall _ l s
      (after d.engine (rings_by_hand fresh id message targets mono wall) _ refl tt s.engine)
command-IsSound o config d fresh mono wall daemon_ping l s = s
command-IsSound o config d fresh mono wall daemon_shutdown l s = record {
  engine = s.engine;
  saved = s.saved;
  queue = s.queue;
}

pub request-IsSound :
    (o : OldestFirst) (config : EffectiveConfig) (d : Daemon) (fresh : Uuid) (mono : ℕ) (wall : ℤ)
    (request : IpcRequest)
    → 1 ≤ config.queue_limit
    → IsSound config.queue_limit d
    → IsSound config.queue_limit (handle_request o config d fresh mono wall request).0
unfolding handle_request
request-IsSound o config d fresh mono wall request l s =
    elim (Bool-cases (request.version == ipc_version)) [
      | inl y ↦ rw y (command-IsSound o config d fresh mono wall request.command l s)
      | inr n ↦ rw n s
    ]
