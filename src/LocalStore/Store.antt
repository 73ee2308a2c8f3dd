-- ===== src/LocalStore/Store.antt =====
-- The store's operations (crates/shellbell-local/src/store.rs, lines 19 to 254), as what they leave
-- when the database reports no error; each is one transaction, or one that a failed statement undoes.
pub mod Bounds
pub mod Delivery
use shellbell.Base.{
  ℕ, ◌+◌, List, [], ◌∷◌, map, Option, none, some, Bool, ◌&&◌, not, leb, if◌then◌else◌, length,
  keep_if, count_if, unwrap_or,
}
use mathlib.Core.Option
use shellbell.Base.Int.{ℤ, leb_ℤ}
use shellbell.Base.Words.{u32_max}
use shellbell.Base.Text.{Text}
use shellbell.Activity.Session.{Uuid, Session, persisted}
use shellbell.Activity.Engine.{ActivityAction}
use shellbell.LocalStore.Queue.{
  QueueRow, Queue, OldestFirst, authorization_failure, is_pending, has_event, is_before, cutoff_of,
  increment_meta, delete_counted, prune_queue, enqueue_in, truncate_diagnostic,
}

pub record QueuedRing : Type 0 where
  pub event_id : Uuid
  pub message : Option Text
  pub targets : List Text
  pub created_at_ms : ℤ
  pub attempts : ℕ

pub record DaemonStatus : Type 0 where
  pub pending_events : ℕ
  pub authorization_failures : ℕ
  pub dropped_events : ℕ
  pub active_sessions : ℕ

pub record Store : Type 0 where
  pub saved : List Session
  pub queue : Queue

-- `u32::try_from(n).unwrap_or(u32::MAX)`
abbrev pub as_u32 : ℕ → ℕ
as_u32 n = if leb n u32_max then n else u32_max

unfoldable pub save_sessions : Store → List Session → Store
save_sessions st sessions = record st { saved = map persisted sessions }

unfoldable pub load_sessions : Store → List Session
load_sessions st = st.saved

unfoldable pub enqueue : OldestFirst → Store → ActivityAction → ℤ → ℕ → ℕ → Store
enqueue o st action now_ms queue_limit event_max_age_ms = record st {
  queue = enqueue_in o (prune_queue st.queue now_ms event_max_age_ms) action now_ms queue_limit;
}

-- `for action in actions { enqueue_in(…) }`
unfoldable pub enqueue_all : OldestFirst → Queue → List ActivityAction → ℤ → ℕ → Queue
enqueue_all o q [] now_ms queue_limit = q
enqueue_all o q (action ∷ actions) now_ms queue_limit =
    enqueue_all o (enqueue_in o q action now_ms queue_limit) actions now_ms queue_limit

unfoldable pub save_sessions_and_enqueue :
    OldestFirst → Store → List Session → List ActivityAction → ℤ → ℕ → ℕ → Store
unfolding save_sessions enqueue_all
save_sessions_and_enqueue o st sessions actions now_ms queue_limit event_max_age_ms =
    record (save_sessions st sessions) {
      queue =
          enqueue_all o (prune_queue st.queue now_ms event_max_age_ms) actions now_ms queue_limit;
    }

unfoldable pub expire_old : Store → ℤ → ℕ → Store × ℕ
unfolding delete_counted
expire_old st now_ms event_max_age_ms =
    let old = is_before (cutoff_of now_ms event_max_age_ms) in
    (record st { queue = delete_counted old st.queue }, count_if old st.queue.rows)

abbrev pub queued_ring : QueueRow → QueuedRing
queued_ring r = record {
  event_id = r.event_id;
  message = r.message;
  targets = r.targets;
  created_at_ms = r.created_at_ms;
  attempts = as_u32 r.attempts;
}

-- `status='pending' AND next_attempt_ms<=now`
abbrev pub may_send : ℤ → QueueRow → Bool
may_send now_ms r = is_pending r.status && leb_ℤ r.next_attempt_ms now_ms

unfoldable pub next_due : OldestFirst → Store → ℤ → ℕ → Store × Option QueuedRing
unfolding expire_old
next_due o st now_ms event_max_age_ms =
    let left = (expire_old st now_ms event_max_age_ms).0 in
    (left, Option.map queued_ring (o.pick (keep_if (may_send now_ms) left.queue.rows)))

-- `DELETE FROM ring_queue WHERE event_id=?`
unfoldable pub delete_event : Uuid → Queue → Queue
delete_event event_id q = record q { rows = keep_if (λ r. not (has_event event_id r)) q.rows }

-- `UPDATE ring_queue SET … WHERE event_id=?`
unfoldable pub update_event : Uuid → (QueueRow → QueueRow) → Queue → Queue
update_event event_id f q = record q {
  rows = map (λ r. if has_event event_id r then f r else r) q.rows;
}

unfoldable pub mark_delivered : Store → Uuid → Store
unfolding delete_event
mark_delivered st event_id = record st { queue = delete_event event_id st.queue }

unfoldable pub mark_retry : Store → Uuid → ℤ → Text → Store
unfolding update_event
mark_retry st event_id next_attempt_ms diagnostic = record st {
  queue =
      update_event event_id
        (λ r. record r {
          attempts = r.attempts + 1;
          next_attempt_ms = next_attempt_ms;
          last_error = some (truncate_diagnostic diagnostic);
        })
        st.queue;
}

unfoldable pub mark_authorization_failure : Store → Uuid → Text → Store
unfolding update_event
mark_authorization_failure st event_id diagnostic = record st {
  queue =
      update_event event_id
        (λ r. record r {
          status = authorization_failure;
          attempts = r.attempts + 1;
          last_error = some (truncate_diagnostic diagnostic);
        })
        st.queue;
}

unfoldable pub discard_permanent : Store → Uuid → Store
unfolding delete_event increment_meta
discard_permanent st event_id = record st {
  queue = increment_meta (delete_event event_id st.queue) 1;
}

unfoldable pub daemon_status : Store → ℕ → DaemonStatus
daemon_status st active_sessions = record {
  pending_events = as_u32 (count_if (λ r. is_pending r.status) st.queue.rows);
  authorization_failures = as_u32 (count_if (λ r. not (is_pending r.status)) st.queue.rows);
  dropped_events = unwrap_or st.queue.dropped_events 0;
  active_sessions = as_u32 active_sessions;
}
