-- ===== src/LocalStore/Store/Bounds.antt =====
-- The length of the store's queue, and what became of its rings.
use shellbell.Base.{
  ℕ, ◌+◌, ◌≡◌, ◌≤◌, refl, List, [], ◌∷◌, ◌++◌, false, not, any, length, keep_if, arith, map,
  if◌then◌else◌, length-keep_if-le,
}
use shellbell.Base.Int.{ℤ, pos, leb_ℤ}
use shellbell.Activity.Session.{Session}
use shellbell.Activity.Engine.{ActivityAction}
use shellbell.LocalStore.Queue.{
  Queue, QueueRow, OldestFirst, has_event, is_before, cutoff_of, prune_queue, enqueue_in, new_row,
  insert_or_ignore, as_i64, delete_counted,
}
use shellbell.LocalStore.Queue.Counts.{
  dropped, keep_if-count_if, rows-delete_counted, delete_counted_total, enqueue_in-le,
  enqueue_in_total, any-keep_if,
}
use shellbell.LocalStore.Store.{
  Store, enqueue, enqueue_all, save_sessions_and_enqueue, expire_old, mark_delivered,
  discard_permanent, mark_authorization_failure, mark_retry,
}
use shellbell.Base.Text.{Text}
use shellbell.Activity.Session.{Uuid}

prune_queue-le :
    (q : Queue) (now : ℤ) (age : ℕ) → length (prune_queue q now age).rows ≤ length q.rows
unfolding prune_queue
prune_queue-le q now age =
    rw rows-delete_counted (omega (arith, keep_if-count_if (is_before (cutoff_of now age)) q.rows))

enqueue_all-le :
    (o : OldestFirst) (actions : List ActivityAction) (q : Queue) (now : ℤ) (limit : ℕ)
    → 1 ≤ limit
    → length q.rows ≤ limit
    → length (enqueue_all o q actions now limit).rows ≤ limit
unfolding enqueue_all
enqueue_all-le o [] q now limit l h = h
enqueue_all-le o (a ∷ actions) q now limit l h =
    enqueue_all-le o actions (enqueue_in o q a now limit) now limit l
      (enqueue_in-le o q a now limit l h)

-- A positive limit on the queue's length, once met, is met after any batch of rings, however many.
pub queue_limit_kept :
    (o : OldestFirst) (st : Store) (sessions : List Session) (actions : List ActivityAction)
    (now : ℤ) (limit age : ℕ)
    → 1 ≤ limit
    → length st.queue.rows ≤ limit
    → length (save_sessions_and_enqueue o st sessions actions now limit age).queue.rows ≤ limit
unfolding save_sessions_and_enqueue
queue_limit_kept o st sessions actions now limit age l h =
    enqueue_all-le o actions (prune_queue st.queue now age) now limit l
      (omega (arith, prune_queue-le st.queue now age))

-- A ring with a new identifier is accounted for: the rows and the dropped events together grow by
-- one, whether old rows expire, the oldest one gives way, or neither.
pub enqueue_accounts :
    (o : OldestFirst) (st : Store) (action : ActivityAction) (now : ℤ) (limit age : ℕ)
    → any (has_event action.event_id) st.queue.rows ≡ false
    → let st' = enqueue o st action now limit age in
      length st'.queue.rows + dropped st'.queue ≡ length st.queue.rows + dropped st.queue + 1
unfolding enqueue prune_queue
enqueue_accounts o st action now limit age h =
    let old = is_before (cutoff_of now age) in
    omega (
      arith,
      enqueue_in_total o (delete_counted old st.queue) action now limit
          (rw rows-delete_counted (any-keep_if (has_event action.event_id) _ st.queue.rows h)),
      delete_counted_total old st.queue,
    )

-- While there is room, a ring with a new identifier goes to the end of the queue, and the rows that
-- are not too old stay before it, unchanged and in their order.
pub enqueue_with_room :
    (o : OldestFirst) (st : Store) (action : ActivityAction) (now : ℤ) (limit age : ℕ)
    → any (has_event action.event_id) st.queue.rows ≡ false
    → leb_ℤ (as_i64 limit) (pos (length (prune_queue st.queue now age).rows)) ≡ false
    → (enqueue o st action now limit age).queue.rows
      ≡ keep_if (λ r. not (is_before (cutoff_of now age) r)) st.queue.rows
        ++ (new_row action now ∷ [])
unfolding enqueue prune_queue enqueue_in insert_or_ignore
enqueue_with_room o st action now limit age h room =
    rw room
      (rw (rows-delete_counted, any-keep_if (has_event action.event_id) _ st.queue.rows h) refl)

pub expire_old-le :
    (st : Store) (now : ℤ) (age : ℕ)
    → length (expire_old st now age).0.queue.rows ≤ length st.queue.rows
unfolding expire_old
expire_old-le st now age =
    rw rows-delete_counted
      (omega (arith, keep_if-count_if (is_before (cutoff_of now age)) st.queue.rows))

length-update_event :
    (event_id : Uuid) (f : QueueRow → QueueRow) (rows : List QueueRow)
    → length (map (λ r. if has_event event_id r then f r else r) rows) ≤ length rows
length-update_event event_id f [] = omega arith
length-update_event event_id f (r ∷ rows) = omega (arith, length-update_event event_id f rows)

-- No outcome of a delivery makes the queue longer.
pub outcome-le :
    (st : Store) (event_id : Uuid) (next : ℤ) (diagnostic : Text)
    → (length (mark_delivered st event_id).queue.rows ≤ length st.queue.rows)
      × (length (discard_permanent st event_id).queue.rows ≤ length st.queue.rows)
      × (length (mark_authorization_failure st event_id diagnostic).queue.rows
          ≤ length st.queue.rows)
      × (length (mark_retry st event_id next diagnostic).queue.rows ≤ length st.queue.rows)
unfolding mark_delivered discard_permanent mark_authorization_failure mark_retry
outcome-le st event_id next diagnostic = (
  length-keep_if-le _ st.queue.rows,
  length-keep_if-le _ st.queue.rows,
  length-update_event event_id _ st.queue.rows,
  length-update_event event_id _ st.queue.rows,
)
