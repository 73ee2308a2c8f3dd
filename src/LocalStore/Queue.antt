-- ===== src/LocalStore/Queue.antt =====
-- The table `ring_queue` and the statements on it (crates/shellbell-local/src/store.rs, lines 10 to
-- 17, 36 to 66 and 256 to 328). A row's JSON columns are the values that they encode. Where a
-- statement leaves SQLite a choice (`ORDER BY created_at_ms LIMIT 1` among equal times), the choice
-- is a parameter.
pub mod Counts
use mathlib.Core.List.{Memᴰ}
use shellbell.Base.{
  ℕ, ◌+◌, ◌≡◌, List, [], ◌∷◌, ◌++◌, Option, none, some, Bool, true, false, not, ◌==◌, if◌then◌else◌,
  length, keep_if, any, count_if, All, unwrap_or, take,
}
use shellbell.Base.Int.{ℤ, pos, ◌≤ℤ◌, ltb_ℤ, leb_ℤ}
use shellbell.Base.Words.{i64_max, saturating_sub_i64, i64_try_from}
use shellbell.Base.Text.{Text}
use shellbell.Activity.Session.{Uuid}
use shellbell.Activity.Engine.{ActivityAction}

pub data RowStatus : Type 0 where
  pending authorization_failure : RowStatus

abbrev pub is_pending : RowStatus → Bool
is_pending pending = true
is_pending authorization_failure = false

pub record QueueRow : Type 0 where
  pub event_id : Uuid
  pub message : Option Text
  pub targets : List Text
  pub created_at_ms : ℤ
  pub attempts : ℕ
  pub next_attempt_ms : ℤ
  pub status : RowStatus
  pub last_error : Option Text

-- The queue, and the value of `dropped_events` in `local_meta`, if there is one.
pub record Queue : Type 0 where
  pub rows : List QueueRow
  pub dropped_events : Option ℕ

-- What `SELECT … ORDER BY created_at_ms LIMIT 1` returns of the rows that its WHERE lets through.
pub record OldestFirst : Type 0 where
  pub pick : List QueueRow → Option QueueRow
  pub pick_mem : (rows : List QueueRow) (r : QueueRow) → pick rows ≡ some r → Memᴰ r rows
  pub pick_oldest :
      (rows : List QueueRow) (r : QueueRow)
      → pick rows ≡ some r
      → All (λ q. r.created_at_ms ≤ℤ q.created_at_ms) rows
  pub pick_none : (rows : List QueueRow) → pick rows ≡ none → rows ≡ []

-- `i64::try_from(event_max_age.as_millis()).unwrap_or(i64::MAX)`, also for the queue's limit.
abbrev pub as_i64 : ℕ → ℤ
as_i64 n = unwrap_or (i64_try_from n) (pos i64_max)

unfoldable pub increment_meta : Queue → ℕ → Queue
increment_meta q amount =
    if amount == 0
    then q
    else record q { dropped_events = some (unwrap_or q.dropped_events 0 + amount) }

-- `DELETE … WHERE created_at_ms < cutoff`, with the rows affected.
abbrev pub is_before : ℤ → QueueRow → Bool
is_before cutoff r = ltb_ℤ r.created_at_ms cutoff

abbrev pub has_event : Uuid → QueueRow → Bool
has_event event_id r = r.event_id == event_id

-- DELETE with a condition: the rows left, and the drop counted.
unfoldable pub delete_counted : (QueueRow → Bool) → Queue → Queue
unfolding increment_meta
delete_counted p q =
    increment_meta (record q { rows = keep_if (λ r. not (p r)) q.rows }) (count_if p q.rows)

abbrev pub cutoff_of : ℤ → ℕ → ℤ
cutoff_of now_ms event_max_age_ms = saturating_sub_i64 now_ms (as_i64 event_max_age_ms)

unfoldable pub prune_queue : Queue → ℤ → ℕ → Queue
unfolding delete_counted
prune_queue q now_ms event_max_age_ms =
    delete_counted (is_before (cutoff_of now_ms event_max_age_ms)) q

-- `DELETE … WHERE event_id=(SELECT event_id … ORDER BY created_at_ms LIMIT 1)`; a subquery with no
-- row is NULL, which equals nothing.
unfoldable pub drop_oldest : OldestFirst → Queue → Queue
unfolding delete_counted
drop_oldest o q = elim (o.pick q.rows) [
  | none ↦ q
  | some r ↦ delete_counted (has_event r.event_id) q
]

abbrev pub new_row : ActivityAction → ℤ → QueueRow
new_row action now_ms = record {
  event_id = action.event_id;
  message = action.message;
  targets = action.targets;
  created_at_ms = now_ms;
  attempts = 0;
  next_attempt_ms = now_ms;
  status = pending;
  last_error = none;
}

-- `INSERT OR IGNORE`: the event's identifier is the primary key.
unfoldable pub insert_or_ignore : Queue → QueueRow → Queue
insert_or_ignore q r =
    if any (has_event r.event_id) q.rows then q else record q { rows = q.rows ++ r ∷ [] }

unfoldable pub enqueue_in : OldestFirst → Queue → ActivityAction → ℤ → ℕ → Queue
unfolding drop_oldest insert_or_ignore
enqueue_in o q action now_ms queue_limit =
    let full = leb_ℤ (as_i64 queue_limit) (pos (length q.rows)) in
    insert_or_ignore (if full then drop_oldest o q else q) (new_row action now_ms)

abbrev pub truncate_diagnostic : Text → Text
truncate_diagnostic value = take 240 value
