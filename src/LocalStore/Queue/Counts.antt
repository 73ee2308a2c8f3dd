-- ===== src/LocalStore/Queue/Counts.antt =====
-- How many rows each statement on the queue leaves, and how many it counts as dropped.
use mathlib.Core.List.{Memᴰ}
use shellbell.Base.{
  ℕ, ◌+◌, ◌≡◌, ◌≤◌, ◌<◌, refl, inl, inr, List, [], ◌∷◌, ◌++◌, Bool, true, false, not, ◌||◌, ==_self,
  length, length-append, keep_if, any, count_if, unwrap_or, arith, Option-cases, Bool-cases,
}
use shellbell.Base.Int.{ℤ, pos, leb_ℤ}
use shellbell.Activity.Engine.{ActivityAction}
use shellbell.LocalStore.Queue.{
  QueueRow, Queue, OldestFirst, increment_meta, has_event, delete_counted, drop_oldest, new_row,
  insert_or_ignore, enqueue_in, as_i64,
}

module _ {ℓ} {A : Type ℓ} where
  -- A DELETE leaves the rows that it does not remove.
  pub keep_if-count_if :
      (p : A → Bool) (xs : List A)
      → length (keep_if (λ x. not (p x)) xs) + count_if p xs ≡ length xs
  unfolding keep_if count_if
  keep_if-count_if p [] = omega arith
  keep_if-count_if p (x ∷ xs) = ground (arith, keep_if-count_if p xs)

-- The rows dropped so far.
abbrev pub dropped : Queue → ℕ
dropped q = unwrap_or q.dropped_events 0

pub dropped-increment_meta : (q : Queue) (n : ℕ) → dropped (increment_meta q n) ≡ dropped q + n
unfolding increment_meta
dropped-increment_meta q n = ground arith

rows-increment_meta : (q : Queue) (n : ℕ) → (increment_meta q n).rows ≡ q.rows
unfolding increment_meta
rows-increment_meta q n = ground arith

pub rows-delete_counted :
    (p : QueueRow → Bool) (q : Queue) → (delete_counted p q).rows ≡ keep_if (λ r. not (p r)) q.rows
unfolding delete_counted
rows-delete_counted p q = rows-increment_meta _ _

-- A counted DELETE moves rows from the queue to the count.
pub delete_counted_total :
    (p : QueueRow → Bool) (q : Queue)
    → length (delete_counted p q).rows + dropped (delete_counted p q) ≡ length q.rows + dropped q
unfolding delete_counted
delete_counted_total p q =
    rw (rows-increment_meta, dropped-increment_meta) (omega (arith, keep_if-count_if p q.rows))

pub drop_oldest_total :
    (o : OldestFirst) (q : Queue)
    → length (drop_oldest o q).rows + dropped (drop_oldest o q) ≡ length q.rows + dropped q
unfolding drop_oldest
drop_oldest_total o q = elim (Option-cases (o.pick q.rows)) [
  | inl n ↦ rw (n, drop_oldest) refl
  | inr (r, e) ↦ rw (e, drop_oldest) (delete_counted_total (has_event r.event_id) q)
]

module _ {ℓ} {A : Type ℓ} where
  pub count_if_pos :
      (p : A → Bool) (xs : List A) (x : A) → Memᴰ x xs → p x ≡ true → 0 < count_if p xs
  unfolding count_if
  count_if_pos p [] x m h = elim m [ ]
  count_if_pos p (y ∷ xs) x (Memᴰ.head e) h = ground (arith, e)
  count_if_pos p (y ∷ xs) x (Memᴰ.tail m) h = ground (arith, count_if_pos p xs x m h)

  pub any-append : (p : A → Bool) (xs ys : List A) → any p (xs ++ ys) ≡ (any p xs || any p ys)
  unfolding any
  any-append p [] ys = refl
  any-append p (x ∷ xs) ys = ground (arith, any-append p xs ys)

  pub any-keep_if : (p q : A → Bool) (xs : List A) → any p xs ≡ false → any p (keep_if q xs) ≡ false
  unfolding any keep_if
  any-keep_if p q [] h = refl
  any-keep_if p q (x ∷ xs) h = ground (arith, any-keep_if p q xs)

-- A full queue loses a row before the new one comes.
pub drop_oldest_lt :
    (o : OldestFirst) (q : Queue)
    → 0 < length q.rows
    → length (drop_oldest o q).rows < length q.rows
unfolding drop_oldest
drop_oldest_lt o q h = elim (Option-cases (o.pick q.rows)) [
  | inl n ↦ absurd (ground (arith, o.pick_none q.rows n))
  | inr (r, e) ↦
      rw (e, drop_oldest, rows-delete_counted)
        (omega (
          arith,
          keep_if-count_if (has_event r.event_id) q.rows,
          count_if_pos (has_event r.event_id) q.rows r (o.pick_mem q.rows r e) (==_self r.event_id),
        ))
]

any-drop_oldest :
    (o : OldestFirst) (p : QueueRow → Bool) (q : Queue)
    → any p q.rows ≡ false
    → any p (drop_oldest o q).rows ≡ false
unfolding drop_oldest
any-drop_oldest o p q h = elim (Option-cases (o.pick q.rows)) [
  | inl n ↦ rw (n, drop_oldest) h
  | inr (r, e) ↦ rw (e, drop_oldest, rows-delete_counted) (any-keep_if p _ q.rows h)
]

pub insert_or_ignore_total :
    (q : Queue) (r : QueueRow)
    → any (has_event r.event_id) q.rows ≡ false
    → length (insert_or_ignore q r).rows + dropped (insert_or_ignore q r)
      ≡ length q.rows + dropped q + 1
unfolding insert_or_ignore
insert_or_ignore_total q r h = ground (arith, h, length-append q.rows (r ∷ []))

insert_or_ignore-le :
    (q : Queue) (r : QueueRow) → length (insert_or_ignore q r).rows ≤ length q.rows + 1
unfolding insert_or_ignore
insert_or_ignore-le q r = ground (arith, length-append q.rows (r ∷ []))

pub enqueue_in-le :
    (o : OldestFirst) (q : Queue) (action : ActivityAction) (now : ℤ) (limit : ℕ)
    → 1 ≤ limit
    → length q.rows ≤ limit
    → length (enqueue_in o q action now limit).rows ≤ limit
unfolding enqueue_in
enqueue_in-le o q action now limit l h =
    elim (Bool-cases (leb_ℤ (as_i64 limit) (pos (length q.rows)))) [
      | inl full ↦ rw full (
          ground (
            arith,
            full,
            insert_or_ignore-le (drop_oldest o q) (new_row action now),
            drop_oldest_lt o q,
          ))
      | inr room ↦ rw room (ground (arith, room, insert_or_ignore-le q (new_row action now)))
    ]

-- An event that is not yet in the queue adds one to the rows and the drops together.
pub enqueue_in_total :
    (o : OldestFirst) (q : Queue) (action : ActivityAction) (now : ℤ) (limit : ℕ)
    → any (has_event action.event_id) q.rows ≡ false
    → length (enqueue_in o q action now limit).rows + dropped (enqueue_in o q action now limit)
      ≡ length q.rows + dropped q + 1
unfolding enqueue_in
enqueue_in_total o q action now limit h =
    elim (Bool-cases (leb_ℤ (as_i64 limit) (pos (length q.rows)))) [
      | inl full ↦ rw full (
          omega (
            arith,
            insert_or_ignore_total (drop_oldest o q) (new_row action now)
                (any-drop_oldest o (has_event action.event_id) q h),
            drop_oldest_total o q,
          ))
      | inr room ↦ rw room (insert_or_ignore_total q (new_row action now) h)
    ]
