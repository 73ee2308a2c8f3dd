-- ===== src/Activity/Tick.antt =====
-- `tick` collects the due sessions and then looks each one up again to settle it. That is one pass
-- over the map, and no session that it looks up is missing.
use mathlib.Core.List.{append_assoc, append-nil}
use shellbell.Base.{
  ℕ, ◌+◌, ◌≡◌, refl, sym, ap, ◌∙◌, inl, inr, List, [], ◌∷◌, ◌++◌, map, Option, some, true, false,
  ◌&&◌, if◌then◌else◌, length, length-append, keep_if, arith, Bool-cases,
}
use shellbell.Base.Int.{ℤ}
use shellbell.Base.OrderedMap.{OrderedMap, IsSorted, values}
use shellbell.Base.OrderedMap.Entries.{Every}
use shellbell.Base.OrderedMap.Middle.{get-middle, modify-middle, Below, Below-next}
use shellbell.Activity.Session.{Uuid, Session}
use shellbell.Activity.Engine.{ActivityAction, ActivityEngine, find}
use shellbell.Activity.Rings.{
  is_due, rings, automatic_action, settle, ring_of, tick_loop, tick, put,
}

-- Every session stands under its own identifier.
abbrev pub IsKeyed : OrderedMap Session → Type 0
IsKeyed = Every (λ k s. s.id ≡ k)

-- The one pass: what each session becomes, and the rings in the order of the map.
unfoldable pub settle_all : ℕ → ℤ → OrderedMap Session → OrderedMap Session
settle_all mono wall [] = []
settle_all mono wall ((k, s) ∷ m) =
    (k, if is_due mono s then settle wall s else s) ∷ settle_all mono wall m

unfoldable pub all_rings : (ℕ → Uuid) → ℕ → OrderedMap Session → ℕ → List ActivityAction
all_rings uuids mono [] n = []
all_rings uuids mono ((k, s) ∷ m) n =
    let rest = all_rings uuids mono m (if is_due mono s && rings s then n + 1 else n) in
    if is_due mono s && rings s then automatic_action (uuids n) s ∷ rest else rest

length-ring_of :
    (uuids : ℕ → Uuid) (s : Session) (actions : List ActivityAction)
    → length (ring_of uuids s actions) ≡ (if rings s then length actions + 1 else length actions)
unfolding ring_of
length-ring_of uuids s actions =
    ground (arith, length-append actions (automatic_action (uuids (length actions)) s ∷ []))

ring_of-true :
    (uuids : ℕ → Uuid) (s : Session) (actions : List ActivityAction)
    → rings s ≡ true
    → ring_of uuids s actions ≡ actions ++ (automatic_action (uuids (length actions)) s ∷ [])
unfolding ring_of
ring_of-true uuids s actions h = rw h

ring_of-false :
    (uuids : ℕ → Uuid) (s : Session) (actions : List ActivityAction)
    → rings s ≡ false
    → ring_of uuids s actions ≡ actions
unfolding ring_of
ring_of-false uuids s actions h = rw h

-- The rings that the loop has, with those still to come.
rings_step :
    (uuids : ℕ → Uuid) (mono k : ℕ) (s : Session) (m : OrderedMap Session)
    (actions : List ActivityAction)
    → is_due mono s ≡ true
    → ring_of uuids s actions ++ all_rings uuids mono m (length (ring_of uuids s actions))
      ≡ actions ++ all_rings uuids mono ((k, s) ∷ m) (length actions)
unfolding all_rings
rings_step uuids mono k s m actions due = elim (Bool-cases (rings s)) [
  | inl r ↦ rw (length-ring_of, due, r, ring_of-true uuids s actions r) (append_assoc actions _ _)
  | inr r ↦ rw (length-ring_of, due, r, ring_of-false uuids s actions r) refl
]

module _ (uuids : ℕ → Uuid) (mono : ℕ) (wall : ℤ) where
  due_ids : OrderedMap Session → List Uuid
  due_ids m = map (λ s. s.id) (keep_if (is_due mono) (values m))

  due_ids-true :
      (k : ℕ) (s : Session) (m : OrderedMap Session)
      → is_due mono s ≡ true
      → due_ids ((k, s) ∷ m) ≡ s.id ∷ due_ids m
  unfolding due_ids values keep_if
  due_ids-true k s m h = rw (h, due_ids, keep_if)

  due_ids-false :
      (k : ℕ) (s : Session) (m : OrderedMap Session)
      → is_due mono s ≡ false
      → due_ids ((k, s) ∷ m) ≡ due_ids m
  unfolding due_ids values keep_if
  due_ids-false k s m h = rw (h, due_ids, keep_if)

  -- The loop at a session that is found.
  tick_loop_step :
      (e : ActivityEngine) (j : Uuid) (ids : List Uuid) (s : Session)
      (actions : List ActivityAction)
      → find e j ≡ some s
      → tick_loop uuids wall (j ∷ ids) e actions
        ≡ tick_loop uuids wall ids (put e j (settle wall s)) (ring_of uuids s actions)
  unfolding tick_loop
  tick_loop_step e j ids s actions h = rw (h, tick_loop)

  -- The engine with the sessions of two maps, those of the first settled.
  abbrev joined : OrderedMap Session → OrderedMap Session → ActivityEngine
  joined m n = record { sessions = m ++ n }

  joined_next :
      (m n : OrderedMap Session) (k : ℕ) (t : Session)
      → joined (m ++ (k, t) ∷ []) n ≡ joined m ((k, t) ∷ n)
  joined_next m n k t = ap (λ x. record { sessions = x }) (append_assoc m ((k, t) ∷ []) n)

  put-joined :
      (m n : OrderedMap Session) (k : ℕ) (s t : Session)
      → s.id ≡ k
      → Below m ((k, s) ∷ n)
      → IsSorted ((k, s) ∷ n)
      → put (joined m ((k, s) ∷ n)) s.id t ≡ joined (m ++ (k, t) ∷ []) n
  put-joined m n k s t i b o =
      ap (λ x. record { sessions = x }) (modify-middle m n k s.id s (λ _. t) i b o.0)
      ∙ sym (joined_next m n k t)

  find-joined :
      (m n : OrderedMap Session) (k : ℕ) (s : Session)
      → s.id ≡ k
      → Below m ((k, s) ∷ n)
      → find (joined m ((k, s) ∷ n)) s.id ≡ some s
  unfolding find
  find-joined m n k s i b = get-middle m n k s.id s i b

  abbrev outcome :
      OrderedMap Session
      → OrderedMap Session
      → List ActivityAction
      → Option (ActivityEngine × List ActivityAction)
  outcome m n actions =
      some (joined m (settle_all mono wall n), actions ++ all_rings uuids mono n (length actions))

  outcome_due :
      (m n : OrderedMap Session) (k : ℕ) (s : Session) (actions : List ActivityAction)
      → is_due mono s ≡ true
      → outcome (m ++ (k, settle wall s) ∷ []) n (ring_of uuids s actions)
        ≡ outcome m ((k, s) ∷ n) actions
  unfolding settle_all
  outcome_due m n k s actions h = rw (joined_next, rings_step uuids mono k s n actions h, h) refl

  outcome_not_due :
      (m n : OrderedMap Session) (k : ℕ) (s : Session) (actions : List ActivityAction)
      → is_due mono s ≡ false
      → outcome (m ++ (k, s) ∷ []) n actions ≡ outcome m ((k, s) ∷ n) actions
  unfolding settle_all all_rings
  outcome_not_due m n k s actions h = rw (joined_next, h) refl

  -- The loop over the sessions `n`, with those of `m` behind it.
  tick_loop_lem :
      (n m : OrderedMap Session) (actions : List ActivityAction)
      → Below m n
      → IsSorted n
      → IsKeyed n
      → tick_loop uuids wall (due_ids n) (joined m n) actions ≡ outcome m n actions
  unfolding tick_loop settle_all all_rings due_ids values keep_if
  tick_loop_lem [] m actions b o i = simp append-nil
  tick_loop_lem ((k, s) ∷ n) m actions b o i = elim (Bool-cases (is_due mono s)) [
    | inl h ↦ rw (due_ids-true k s n h) (
        tick_loop_step _ s.id (due_ids n) s actions (find-joined m n k s i.0 b)
        ∙ rw (put-joined m n k s (settle wall s) i.0 b o) (
            tick_loop_lem n (m ++ (k, settle wall s) ∷ []) (ring_of uuids s actions)
              (Below-next m n k s (settle wall s) b o) o.1 i.1
            ∙ outcome_due m n k s actions h))
    | inr h ↦
        rw (due_ids-false k s n h, ← joined_next)
          (tick_loop_lem n (m ++ (k, s) ∷ []) actions (Below-next m n k s s b o) o.1 i.1
            ∙ outcome_not_due m n k s actions h)
  ]

-- On a sorted map whose sessions stand under their own identifiers `tick` does not panic, settles
-- every due session and leaves the others, and rings for the due sessions that qualify, in their
-- order.
pub tick-eq-settle_all :
    (e : ActivityEngine) (uuids : ℕ → Uuid) (mono : ℕ) (wall : ℤ)
    → IsSorted e.sessions
    → IsKeyed e.sessions
    → tick e uuids mono wall
      ≡ some
          (record { sessions = settle_all mono wall e.sessions }, all_rings uuids mono e.sessions 0)
unfolding tick due_ids
tick-eq-settle_all e uuids mono wall o i =
    tick_loop_lem uuids mono wall e.sessions [] [] (below e.sessions) o i
  where
    below : (n : OrderedMap Session) → Below [] n
    below [] = tt
    below (x ∷ n) = tt
