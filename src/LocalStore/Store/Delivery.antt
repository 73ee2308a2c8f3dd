-- ===== src/LocalStore/Store/Delivery.antt =====
-- Which ring the store hands out next, and what each outcome of a delivery changes of that.
use mathlib.Core.List.{Memᴰ}
use mathlib.Core.Option
use shellbell.Base.{
  ℕ, ◌≡◌, ◌≢◌, refl, ◌⊎◌, ap, ◌∙◌, inl, inr, List, [], ◌∷◌, none, some, Bool, true, false, not,
  ◌&&◌, keep_if, All, arith, if◌then◌else◌, any, Option-cases, Bool-cases, map,
}
use shellbell.Base.Int.{ℤ, ◌≤ℤ◌, leb_ℤ}
use shellbell.Base.Text.{Text}
use shellbell.Activity.Session.{Uuid}
use shellbell.LocalStore.Queue.{QueueRow, OldestFirst, is_before, has_event, cutoff_of}
use shellbell.LocalStore.Queue.Counts.{rows-delete_counted}
use shellbell.LocalStore.Store.{
  Store, QueuedRing, queued_ring, may_send, expire_old, next_due, mark_delivered, mark_retry,
  mark_authorization_failure, discard_permanent,
}

module _ {ℓ} {A : Type ℓ} where
  uncons : {x y : A} {xs : List A} → Memᴰ x (y ∷ xs) → (x ≡ y) ⊎ Memᴰ x xs
  uncons (Memᴰ.head e) = inl e
  uncons (Memᴰ.tail m) = inr m

  keep_if-mem :
      (p : A → Bool) (xs : List A) (x : A) → Memᴰ x (keep_if p xs) → Memᴰ x xs × (p x ≡ true)
  unfolding keep_if
  keep_if-mem p [] x m = elim m [ ]
  keep_if-mem p (y ∷ xs) x m = elim (Bool-cases (p y)) [
    | inl t ↦ elim (uncons (rw (t, keep_if) at m)) [
      | inl e ↦ (Memᴰ.head e, ap p e ∙ t)
      | inr n ↦ let (m', h) = keep_if-mem p xs x n in (Memᴰ.tail m', h)
    ]
    | inr f ↦ let (m', h) = keep_if-mem p xs x (rw (f, keep_if) at m) in (Memᴰ.tail m', h)
  ]

-- The rows that may be sent: pending, their time come, and not too old.
unfoldable pub sendable : Store → ℤ → ℕ → List QueueRow
sendable st now age =
    keep_if (may_send now) (keep_if (λ r. not (is_before (cutoff_of now age) r)) st.queue.rows)

next_due_lem :
    (o : OldestFirst) (st : Store) (now : ℤ) (age : ℕ)
    → (next_due o st now age).1 ≡ Option.map queued_ring (o.pick (sendable st now age))
unfolding next_due expire_old sendable
next_due_lem o st now age = rw rows-delete_counted refl

-- The next ring is that of a row which is pending, due and not too old, and no such row is older.
pub next_due_oldest :
    (o : OldestFirst) (st : Store) (now : ℤ) (age : ℕ) (ring : QueuedRing)
    → (next_due o st now age).1 ≡ some ring
    → (r : QueueRow) × (queued_ring r ≡ ring)
      × Memᴰ r st.queue.rows
      × (may_send now r ≡ true)
      × (is_before (cutoff_of now age) r ≡ false)
      × All (λ q. r.created_at_ms ≤ℤ q.created_at_ms) (sendable st now age)
unfolding sendable
next_due_oldest o st now age ring h = elim (Option-cases (o.pick (sendable st now age))) [
  | inl n ↦ absurd (cc (next_due_lem o st now age, n, h))
  | inr (r, e) ↦
      let (m, sends) = keep_if-mem (may_send now) _ r (o.pick_mem (sendable st now age) r e) in
      let (m', young) =
        keep_if-mem (λ q. not (is_before (cutoff_of now age) q)) st.queue.rows r m in
      (
        r,
        cc (next_due_lem o st now age, e, h),
        m',
        sends,
        ground (arith, young),
        o.pick_oldest (sendable st now age) r e,
      )
]

-- There is no next ring only if no row may be sent.
pub next_due-none :
    (o : OldestFirst) (st : Store) (now : ℤ) (age : ℕ)
    → (next_due o st now age).1 ≡ none
    → sendable st now age ≡ []
next_due-none o st now age h = elim (Option-cases (o.pick (sendable st now age))) [
  | inl n ↦ o.pick_none _ n
  | inr (r, e) ↦ absurd (cc (next_due_lem o st now age, e, h))
]

module _ {ℓ} {A : Type ℓ} where
  mem-any : (p : A → Bool) (xs : List A) (x : A) → Memᴰ x xs → p x ≡ true → any p xs ≡ true
  unfolding any
  mem-any p [] x m h = elim m [ ]
  mem-any p (y ∷ xs) x (Memᴰ.head e) h = ground (arith, e)
  mem-any p (y ∷ xs) x (Memᴰ.tail m) h = ground (arith, mem-any p xs x m h)

-- A row of the event that may be sent.
abbrev offers : ℤ → Uuid → QueueRow → Bool
offers now event_id r = has_event event_id r && may_send now r

-- No ring of the event is handed out next.
abbrev pub NotNext : OldestFirst → ℤ → ℕ → Uuid → Store → Type 0
NotNext o now age event_id st =
    (ring : QueuedRing) → (next_due o st now age).1 ≡ some ring → ring.event_id ≢ event_id

not_next :
    (o : OldestFirst) (now : ℤ) (age : ℕ) (event_id : Uuid) (st : Store)
    → any (offers now event_id) st.queue.rows ≡ false
    → NotNext o now age event_id st
not_next o now age event_id st h ring next same =
    let (r, q, m, sends, _, _) = next_due_oldest o st now age ring next in
    let named : r.event_id ≡ event_id = cc (ap (λ x. x.event_id) q) in
    cc (h, mem-any (offers now event_id) st.queue.rows r m (ground (arith, named, sends)))

offers_deleted :
    (now : ℤ) (event_id : Uuid) (rows : List QueueRow)
    → any (offers now event_id) (keep_if (λ r. not (has_event event_id r)) rows) ≡ false
unfolding any keep_if
offers_deleted now event_id [] = refl
offers_deleted now event_id (r ∷ rows) = ground (arith, offers_deleted now event_id rows)

-- An update that leaves no row of the event to be sent.
offers_updated :
    (now : ℤ) (event_id : Uuid) (f : QueueRow → QueueRow) (rows : List QueueRow)
    → ((r : QueueRow) → may_send now (f r) ≡ false)
    → any (offers now event_id) (map (λ r. if has_event event_id r then f r else r) rows) ≡ false
unfolding any
offers_updated now event_id f [] h = refl
offers_updated now event_id f (r ∷ rows) h =
    ground (arith, h r, offers_updated now event_id f rows h)

rows-discard :
    (st : Store) (event_id : Uuid)
    → (discard_permanent st event_id).queue.rows
      ≡ keep_if (λ r. not (has_event event_id r)) st.queue.rows
unfolding discard_permanent
rows-discard st event_id = refl

-- A ring that was delivered, discarded or refused authorisation is not handed out again at any
-- later time; one that is to be retried is not handed out before its next attempt.
pub outcomes-NotNext :
    (o : OldestFirst) (st : Store) (event_id : Uuid) (now next_attempt : ℤ) (age : ℕ)
    (diagnostic : Text)
    → NotNext o now age event_id (mark_delivered st event_id)
      × NotNext o now age event_id (discard_permanent st event_id)
      × NotNext o now age event_id (mark_authorization_failure st event_id diagnostic)
      × (leb_ℤ next_attempt now ≡ false
          → NotNext o now age event_id (mark_retry st event_id next_attempt diagnostic))
unfolding mark_delivered mark_authorization_failure mark_retry
outcomes-NotNext o st event_id now next_attempt age diagnostic = (
  not_next o now age event_id _ (offers_deleted now event_id st.queue.rows),
  not_next o now age event_id _ (rw rows-discard (offers_deleted now event_id st.queue.rows)),
  not_next o now age event_id _ (offers_updated now event_id _ st.queue.rows (λ r. refl)),
  λ later.
      not_next o now age event_id _
        (offers_updated now event_id _ st.queue.rows (λ r. ground (arith, later))),
)
