-- ===== src/Tests/LocalStore.antt =====
-- The local store with two rings in its queue.
use mathlib.Core.List.{Memᴰ}
use shellbell.Base.{
  ℕ, ◌+◌, ◌≡◌, ◌≤◌, refl, sym, inl, inr, ◌⊎◌, ap, ◌∙◌, List, [], ◌∷◌, ◌++◌, Option, none, some,
  Bool, true, false, not, length, keep_if, any, arith, All, if◌then◌else◌, Bool-cases, Option-cases,
}
use shellbell.Base.Int.{ℤ, pos, leb_ℤ, ◌≤ℤ◌}
use shellbell.Base.Text.{codes}
use shellbell.Activity.Engine.{ActivityAction}
use shellbell.LocalStore.Queue.{
  Queue, QueueRow, OldestFirst, pending, has_event, is_before, cutoff_of, new_row, as_i64,
}
use shellbell.LocalStore.Queue.Counts.{dropped}
use shellbell.LocalStore.Store.{
  Store, enqueue, next_due, queued_ring, may_send, mark_delivered, discard_permanent,
  mark_authorization_failure, mark_retry,
}
use shellbell.LocalStore.Store.Delivery.{sendable, NotNext, next_due_oldest, outcomes-NotNext}
use shellbell.LocalStore.Store.Bounds.{enqueue_accounts}

-- The first of the oldest rows.
unfoldable pub earlier : QueueRow → Option QueueRow → QueueRow
earlier r none = r
earlier r (some q) = if leb_ℤ r.created_at_ms q.created_at_ms then r else q

unfoldable pub first_oldest : List QueueRow → Option QueueRow
first_oldest [] = none
first_oldest (r ∷ rows) = some (earlier r (first_oldest rows))

All-le :
    (rows : List QueueRow) (a b : ℤ)
    → a ≤ℤ b
    → All (λ q. b ≤ℤ q.created_at_ms) rows
    → All (λ q. a ≤ℤ q.created_at_ms) rows
All-le [] a b h k = tt
All-le (r ∷ rows) a b h k = (omega arith, All-le rows a b h k.1)

pub first_oldest-none : (rows : List QueueRow) → first_oldest rows ≡ none → rows ≡ []
unfolding first_oldest
first_oldest-none [] h = refl
first_oldest-none (r ∷ rows) h = cc

some_inj : {r q : QueueRow} → some r ≡ some q → r ≡ q
some_inj h = cc

earlier-cases : (q x : QueueRow) → (earlier q (some x) ≡ q) ⊎ (earlier q (some x) ≡ x)
unfolding earlier
earlier-cases q x = ground arith

earlier-le :
    (q x : QueueRow)
    → (earlier q (some x)).created_at_ms ≤ℤ q.created_at_ms
      × ((earlier q (some x)).created_at_ms ≤ℤ x.created_at_ms)
unfolding earlier
earlier-le q x = (ground arith, ground arith)

first_oldest-cons :
    (q x : QueueRow) (rows : List QueueRow)
    → first_oldest rows ≡ some x
    → first_oldest (q ∷ rows) ≡ some (earlier q (some x))
unfolding first_oldest
first_oldest-cons q x rows e = rw e refl

first_oldest-single :
    (q : QueueRow) (rows : List QueueRow)
    → first_oldest rows ≡ none
    → first_oldest (q ∷ rows) ≡ some q
unfolding first_oldest earlier
first_oldest-single q rows e = rw e refl

pub first_oldest_mem :
    (rows : List QueueRow) (r : QueueRow) → first_oldest rows ≡ some r → Memᴰ r rows
first_oldest_mem [] r h = absurd (unfold first_oldest in cc h)
first_oldest_mem (q ∷ rows) r h = elim (Option-cases (first_oldest rows)) [
  | inl n ↦ Memᴰ.head (some_inj (sym h ∙ first_oldest-single q rows n))
  | inr (x, e) ↦ elim (earlier-cases q x) [
    | inl k ↦ Memᴰ.head (some_inj (sym h ∙ first_oldest-cons q x rows e ∙ ap some k))
    | inr k ↦
        Memᴰ.tail
          (first_oldest_mem rows r (e ∙ sym (ap some k) ∙ sym (first_oldest-cons q x rows e) ∙ h))
  ]
]

pub first_oldest_oldest :
    (rows : List QueueRow) (r : QueueRow)
    → first_oldest rows ≡ some r
    → All (λ q. r.created_at_ms ≤ℤ q.created_at_ms) rows
first_oldest_oldest [] r h = tt
first_oldest_oldest (q ∷ rows) r h = elim (Option-cases (first_oldest rows)) [
  | inl n ↦
      let k : r.created_at_ms ≡ q.created_at_ms =
        ap (λ y. y.created_at_ms) (some_inj (sym h ∙ first_oldest-single q rows n)) in
      (rw k (omega arith), rw (first_oldest-none rows n) tt)
  | inr (x, e) ↦
      let k : r.created_at_ms ≡ (earlier q (some x)).created_at_ms =
        ap (λ y. y.created_at_ms) (some_inj (sym h ∙ first_oldest-cons q x rows e)) in
      let (le_q, le_x) = earlier-le q x in
      (
        rw k le_q,
        All-le rows r.created_at_ms x.created_at_ms (rw k le_x) (first_oldest_oldest rows x e),
      )
]

abbrev pub oldest_first : OldestFirst
unfolding first_oldest earlier
oldest_first = record {
  pick = first_oldest;
  pick_mem = first_oldest_mem;
  pick_oldest = first_oldest_oldest;
  pick_none = first_oldest-none;
}

abbrev action : ActivityAction
action = record {
  event_id = 500;
  session_id = some 7;
  message = some (codes "build is ready");
  targets = codes "phone" ∷ [];
  automatic = true;
  active_duration_ms = some 130000;
}

abbrev row : ℕ → ℕ → QueueRow
row event_id created = record {
  event_id = event_id;
  message = none;
  targets = [];
  created_at_ms = pos created;
  attempts = 0;
  next_attempt_ms = pos created;
  status = pending;
  last_error = none;
}

abbrev two_rings : Store
two_rings = record {
  saved = [];
  queue = record { rows = row 1 100 ∷ row 2 200 ∷ []; dropped_events = none };
}

enqueue_accounts_example :
    let st' = enqueue oldest_first two_rings action (pos 300) 2 60000 in
    length st'.queue.rows + dropped st'.queue ≡ 3
unfolding any
enqueue_accounts_example = enqueue_accounts oldest_first two_rings action (pos 300) 2 60000 refl

next_due_oldest_example :
    (r : QueueRow) × (queued_ring r ≡ queued_ring (row 1 100))
    × Memᴰ r two_rings.queue.rows
    × (may_send (pos 300) r ≡ true)
    × (is_before (cutoff_of (pos 300) 60000) r ≡ false)
    × All (λ q. r.created_at_ms ≤ℤ q.created_at_ms) (sendable two_rings (pos 300) 60000)
unfolding next_due first_oldest earlier shellbell.LocalStore.Queue.prune_queue keep_if
    shellbell.Base.count_if shellbell.Base.Words.saturating_sub_i64 shellbell.Base.Int.◌-ℤ◌
next_due_oldest_example =
    next_due_oldest oldest_first two_rings (pos 300) 60000 (queued_ring (row 1 100)) refl

outcomes-NotNext_example :
    NotNext oldest_first (pos 300) 60000 1 (mark_delivered two_rings 1)
    × NotNext oldest_first (pos 300) 60000 1 (discard_permanent two_rings 1)
    × NotNext oldest_first
        (pos 300)
        60000
        1
        (mark_authorization_failure two_rings 1 (codes "relay returned HTTP 401"))
    × (leb_ℤ (pos 5300) (pos 300) ≡ false
        → NotNext oldest_first
            (pos 300)
            60000
            1
            (mark_retry two_rings 1 (pos 5300) (codes "relay returned HTTP 401")))
outcomes-NotNext_example =
    outcomes-NotNext oldest_first two_rings 1 (pos 300) (pos 5300) 60000
      (codes "relay returned HTTP 401")
