-- ===== src/Daemon/Run.antt =====
-- The daemon over any sequence of requests, timers, cleanups, deliveries and restarts.

use shellbell.Base.{ℕ, ◌≡◌, ◌≤◌, refl, List, [], ◌∷◌, map, Option, none, some, Bool, length, arith}
use shellbell.Base.Int.{ℤ}
use shellbell.Base.Words.{saturating_sub_i64}
use shellbell.Base.OrderedMap.{values}
use shellbell.Activity.Session.{Uuid}
use shellbell.Activity.Engine.{ActivityAction, ActivityEngine}
use shellbell.Activity.Trace.{ticks, cleans, step}
use shellbell.Activity.Keeps.{Holds, remove_all-Holds}
use shellbell.Activity.Keeps.Steps.{step-Safe}
use shellbell.Activity.WellFormed.{IsGood, IsGood-kept, IsGood-heard}
use shellbell.LocalStore.Queue.{OldestFirst, as_i64}
use shellbell.LocalStore.Store.{
  Store, QueuedRing, save_sessions, expire_old, next_due, mark_delivered, mark_retry,
  mark_authorization_failure, discard_permanent,
}
use shellbell.LocalStore.Store.Bounds.{expire_old-le, outcome-le}
use shellbell.Ipc.{IpcRequest}
use shellbell.Config.{EffectiveConfig}
use shellbell.Daemon.{
  Daemon, Submission, DeliveryResult, accepted, authorization_failure, permanent_failure,
  transient_failure, classify, start, stop, handle_request, use_configured, save_rings,
  process_timers, save_if_removed, cleanup, cleanup_sessions, settle_delivery, deliver_to,
  deliver_one, session_stale_after_ms,
}
use shellbell.Daemon.Recovery.{save-IsSaved, start-Holds}
use shellbell.Daemon.Requests.{IsSound, enqueue-IsSound, request-IsSound, after}

-- What happens to the daemon. A delivery waits for the relay without the mutex, so it stands here as
-- a whole and in its two halves, between which other steps may come; each other event is one step
-- under the mutex. A clean shutdown is a stop and then a restart; a restart alone, from what is in the
-- store, is one after a crash.
pub data Event : Type 0 where
  requests : Uuid → ℕ → ℤ → IpcRequest → Event
  timers : (ℕ → Uuid) → ℕ → ℤ → Event
  cleanups : (ℕ → Bool) → ℤ → Event
  deliveries : (QueuedRing → Submission) → ℤ → ℕ → Event
  picks : ℤ → Event
  outcomes : QueuedRing → Submission → ℤ → ℕ → Event
  stops : Event
  restarts : (ℕ → Bool) → ℤ → Event

-- `none` is a panic.
unfoldable pub step_daemon : OldestFirst → EffectiveConfig → Daemon → Event → Option Daemon
step_daemon o config d (requests fresh mono wall request) =
    some (handle_request o config d fresh mono wall request).0
step_daemon o config d (timers uuids mono wall) = process_timers o config d uuids mono wall
step_daemon o config d (cleanups pid_is_alive now) =
    some (cleanup_sessions config d pid_is_alive now)
step_daemon o config d (deliveries submit now jitter) =
    some (deliver_one o config d submit now jitter)
step_daemon o config d (picks now) =
    some (record d { store = (next_due o d.store now config.event_max_age_ms).0 })
step_daemon o config d (outcomes event r now jitter) =
    some (record d { store = settle_delivery (classify event.event_id r) d.store event now jitter })
step_daemon o config d stops = some (stop d)
step_daemon o config d (restarts pid_is_alive now) = some (start pid_is_alive now d.store)

abbrev after_event : (Daemon → Option Daemon) → Option Daemon → Option Daemon
after_event next none = none
after_event next (some d) = next d

unfoldable pub run_daemon : OldestFirst → EffectiveConfig → Daemon → List Event → Option Daemon
run_daemon o config d [] = some d
run_daemon o config d (ev ∷ events) =
    after_event (λ d'. run_daemon o config d' events) (step_daemon o config d ev)

-- A result that is no panic, and sound.
abbrev pub Survives : ℕ → Option Daemon → Type 0
Survives limit r = (d : Daemon) × (r ≡ some d) × IsSound limit d

store-IsSound :
    (limit : ℕ) (d : Daemon) (st : Store)
    → IsSound limit d
    → st.saved ≡ d.store.saved
    → length st.queue.rows ≤ length d.store.queue.rows
    → IsSound limit (record d { store = st })
store-IsSound limit d st s e h = record {
  engine = s.engine;
  saved = rw e s.saved;
  queue = omega (arith, h, s.queue);
}

save_rings-IsSound :
    (o : OldestFirst) (config : EffectiveConfig) (d : Daemon) (e : ActivityEngine)
    (actions : List ActivityAction) (now : ℤ)
    → 1 ≤ config.queue_limit
    → IsSound config.queue_limit d
    → Holds IsGood e
    → IsSound config.queue_limit (save_rings o config d e actions now)
unfolding save_rings
save_rings-IsSound o config d e [] now l s h = record {
  engine = h;
  saved = s.saved;
  queue = s.queue;
}
save_rings-IsSound o config d e (a ∷ actions) now l s h =
    enqueue-IsSound o config.queue_limit d e (a ∷ actions) now config.event_max_age_ms l s h

process_timers-IsSound :
    (o : OldestFirst) (config : EffectiveConfig) (d : Daemon) (uuids : ℕ → Uuid) (mono : ℕ)
    (wall : ℤ)
    → 1 ≤ config.queue_limit
    → IsSound config.queue_limit d
    → Survives config.queue_limit (process_timers o config d uuids mono wall)
unfolding process_timers step
process_timers-IsSound o config d uuids mono wall l s =
    let (q, e, h, _) =
      step-Safe IsGood-kept IsGood-heard d.engine (ticks uuids mono wall) tt s.engine in
    rw e (
      save_rings o config d q.0 (map (use_configured config.automatic_message) q.1) wall,
      refl,
      save_rings-IsSound o config d q.0 _ wall l s h,
    )

settle_delivery-IsSound :
    (limit : ℕ) (d : Daemon) (r : DeliveryResult) (st : Store) (event : QueuedRing) (now : ℤ)
    (jitter : ℕ)
    → IsSound limit d
    → st.saved ≡ d.store.saved
    → length st.queue.rows ≤ length d.store.queue.rows
    → IsSound limit (record d { store = settle_delivery r st event now jitter })
unfolding settle_delivery mark_delivered mark_authorization_failure discard_permanent mark_retry
settle_delivery-IsSound limit d accepted st event now jitter s e h =
    store-IsSound limit d _ s e (omega (arith, h, (outcome-le st event.event_id now []).0))
settle_delivery-IsSound limit d (authorization_failure text) st event now jitter s e h =
    store-IsSound limit d _ s e (omega (arith, h, (outcome-le st event.event_id now text).2))
settle_delivery-IsSound limit d permanent_failure st event now jitter s e h =
    store-IsSound limit d _ s e (omega (arith, h, (outcome-le st event.event_id now []).1))
settle_delivery-IsSound limit d (transient_failure text) st event now jitter s e h =
    store-IsSound limit d _ s e (omega (arith, h, (outcome-le st event.event_id _ text).3))

deliver_to-IsSound :
    (limit : ℕ) (d : Daemon) (submit : QueuedRing → Submission) (now : ℤ) (jitter : ℕ) (st : Store)
    (found : Option QueuedRing)
    → IsSound limit d
    → st.saved ≡ d.store.saved
    → length st.queue.rows ≤ length d.store.queue.rows
    → IsSound limit (record d { store = deliver_to submit now jitter (st, found) })
unfolding deliver_to
deliver_to-IsSound limit d submit now jitter st none s e h = store-IsSound limit d st s e h
deliver_to-IsSound limit d submit now jitter st (some event) s e h =
    settle_delivery-IsSound limit d (classify event.event_id (submit event)) st event now jitter s e
      h

deliver_one-IsSound :
    (o : OldestFirst) (config : EffectiveConfig) (limit : ℕ) (d : Daemon)
    (submit : QueuedRing → Submission) (now : ℤ) (jitter : ℕ)
    → IsSound limit d
    → IsSound limit (deliver_one o config d submit now jitter)
unfolding deliver_one next_due expire_old
deliver_one-IsSound o config limit d submit now jitter s =
    deliver_to-IsSound limit d submit now jitter _ _ s refl
      (expire_old-le d.store now config.event_max_age_ms)

cleanup-IsSound :
    (config : EffectiveConfig) (limit : ℕ) (d : Daemon) (removed : List Uuid) (e : ActivityEngine)
    (now : ℤ)
    → IsSound limit d
    → Holds IsGood e
    → IsSound limit (cleanup config d removed e now)
unfolding cleanup save_if_removed expire_old save_sessions
cleanup-IsSound config limit d [] e now s h = record {
  engine = h;
  saved = s.saved;
  queue = omega (arith, s.queue, expire_old-le d.store now config.event_max_age_ms);
}
cleanup-IsSound config limit d (id ∷ ids) e now s h = record {
  engine = h;
  saved = save-IsSaved e.sessions h.every;
  queue = omega (
    arith,
    s.queue,
    expire_old-le (save_sessions d.store (values e.sessions)) now config.event_max_age_ms,
  );
}

cleanup_sessions-IsSound :
    (config : EffectiveConfig) (limit : ℕ) (d : Daemon) (pid_is_alive : ℕ → Bool) (now : ℤ)
    → IsSound limit d
    → IsSound limit (cleanup_sessions config d pid_is_alive now)
unfolding cleanup_sessions cleanup step
cleanup_sessions-IsSound config limit d pid_is_alive now s =
    let cutoff = saturating_sub_i64 now (as_i64 session_stale_after_ms) in
    let h = after d.engine (cleans cutoff) _ refl tt s.engine in
    cleanup-IsSound config limit d _ _ now s (remove_all-Holds IsGood _ _ h.sorted h.every)

start-IsSound :
    (limit : ℕ) (d : Daemon) (pid_is_alive : ℕ → Bool) (now : ℤ)
    → IsSound limit d
    → IsSound limit (start pid_is_alive now d.store)
unfolding start save_sessions
start-IsSound limit d pid_is_alive now s =
    let h = start-Holds pid_is_alive now d.store s.saved in
    record { engine = h; saved = save-IsSaved _ h.every; queue = s.queue }

stop-IsSound : (limit : ℕ) (d : Daemon) → IsSound limit d → IsSound limit (stop d)
unfolding stop save_sessions
stop-IsSound limit d s = record {
  engine = s.engine;
  saved = save-IsSaved _ s.engine.every;
  queue = s.queue;
}

pub step_daemon_sound :
    (o : OldestFirst) (config : EffectiveConfig) (d : Daemon) (event : Event)
    → 1 ≤ config.queue_limit
    → IsSound config.queue_limit d
    → Survives config.queue_limit (step_daemon o config d event)
unfolding step_daemon next_due expire_old
step_daemon_sound o config d (requests fresh mono wall request) l s =
    (_, refl, request-IsSound o config d fresh mono wall request l s)
step_daemon_sound o config d (timers uuids mono wall) l s =
    process_timers-IsSound o config d uuids mono wall l s
step_daemon_sound o config d (cleanups pid_is_alive now) l s =
    (_, refl, cleanup_sessions-IsSound config config.queue_limit d pid_is_alive now s)
step_daemon_sound o config d (deliveries submit now jitter) l s =
    (_, refl, deliver_one-IsSound o config config.queue_limit d submit now jitter s)
step_daemon_sound o config d (picks now) l s = (
  _,
  refl,
  store-IsSound config.queue_limit d (next_due o d.store now config.event_max_age_ms).0 s refl
      (expire_old-le d.store now config.event_max_age_ms),
)
step_daemon_sound o config d (outcomes event r now jitter) l s = (
  _,
  refl,
  settle_delivery-IsSound config.queue_limit d (classify event.event_id r) d.store event now jitter
      s refl (omega arith),
)
step_daemon_sound o config d stops l s = (_, refl, stop-IsSound config.queue_limit d s)
step_daemon_sound o config d (restarts pid_is_alive now) l s =
    (_, refl, start-IsSound config.queue_limit d pid_is_alive now s)

-- Where the queue's limit is at least one, a sound daemon survives every sequence of requests,
-- timer ticks, cleanups, deliveries, whole or in two halves with other steps between them, clean
-- shutdowns and restarts without a panic of the engine, and is sound at its end: its engine is well
-- formed, what it saved are consistent sessions without their live command, and its queue is within
-- the limit.
pub run_daemon_sound :
    (o : OldestFirst) (config : EffectiveConfig) (d : Daemon) (events : List Event)
    → 1 ≤ config.queue_limit
    → IsSound config.queue_limit d
    → Survives config.queue_limit (run_daemon o config d events)
unfolding run_daemon
run_daemon_sound o config d [] l s = (d, refl, s)
run_daemon_sound o config d (ev ∷ events) l s =
    let (d', e, s') = step_daemon_sound o config d ev l s in
    rw e (run_daemon_sound o config d' events l s')
