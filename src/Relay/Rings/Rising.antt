-- ===== src/Relay/Rings/Rising.antt =====
-- The order of the table of rings, and polling again from a cursor.
use mathlib.Core.Path.{subst}
use shellbell.Base.{
  ℕ, zero, suc, ◌+◌, ◌≡◌, ◌≤◌, ◌<◌, refl, sym, ◌∙◌, ap, inl, inr, List, [], ◌∷◌, ◌++◌, Bool, false,
  ltb, keep_if, keep_if-yes, keep_if-no, take, arith, Bool-cases, Option, ltb→lt, lt→ltb,
}
use shellbell.Base.Text.{Text}
use shellbell.Activity.Session.{Uuid}
use shellbell.Relay.State.{DateTime, Ring, Receiver, Relay, Source}
use shellbell.Relay.Rings.{
  DeliveryOutcome, feed_page, scan_limit, insert_ring, delete_old, accept_ring,
}
use shellbell.Relay.Rings.Feed.{last_id, wanted, feed_loop-Covers}
use shellbell.Relay.Rings.Submit.{rings-push_all, last_ring_id-push_all}

-- The identifiers rise strictly, above one number and up to another.
abbrev pub IsRising : ℕ → ℕ → List Ring → Type 0
IsRising low high [] = low ≤ high
IsRising low high (r ∷ rings) = (low < r.id) × IsRising r.id high rings

abbrev pub newer : ℕ → List Ring → List Ring
newer floor rings = keep_if (λ r. ltb floor r.id) rings

lower-IsRising :
    (a low high : ℕ) (rings : List Ring) → a ≤ low → IsRising low high rings → IsRising a high rings
lower-IsRising a low high [] l h = omega (arith, l, h)
lower-IsRising a low high (r ∷ rings) l h = (omega (arith, l, h.0), h.1)

keep_if-IsRising :
    (p : Ring → Bool) (low high : ℕ) (rings : List Ring)
    → IsRising low high rings
    → IsRising low high (keep_if p rings)
unfolding keep_if
keep_if-IsRising p low high [] h = h
keep_if-IsRising p low high (r ∷ rings) h = elim (Bool-cases (p r)) [
  | inl y ↦ rw (keep_if-yes p r rings y) (h.0, keep_if-IsRising p r.id high rings h.1)
  | inr n ↦ rw (keep_if-no p r rings n) (
      lower-IsRising low r.id high (keep_if p rings) (omega (arith, h.0))
        (keep_if-IsRising p r.id high rings h.1))
]

append-IsRising :
    (low high : ℕ) (rings : List Ring) (r : Ring)
    → IsRising low high rings
    → high < r.id
    → IsRising low r.id (rings ++ (r ∷ []))
append-IsRising low high [] r h l = (omega (arith, h, l), omega arith)
append-IsRising low high (q ∷ rings) r h l = (h.0, append-IsRising q.id high rings r h.1 l)

-- A relay whose rings rise up to the last identifier given out is such a relay again, up to the
-- last identifier that it has then given out, after it has taken in a ring, whatever rings became
-- too old and whatever the push service answered.
pub accept_ring-IsRising :
    (sha256 : Text → List ℕ) (uuid_text : Uuid → Text) (deliver : Receiver → DeliveryOutcome)
    (source : Source) (event_id : Uuid) (message : Option Text) (tags : List Text) (now : DateTime)
    (s : Relay)
    → IsRising 0 s.last_ring_id s.rings
    → let t = (accept_ring sha256 uuid_text deliver source event_id message tags now s).0 in
      IsRising 0 t.last_ring_id t.rings
unfolding accept_ring insert_ring delete_old
accept_ring-IsRising sha256 uuid_text deliver source event_id message tags now s h =
    rw (rings-push_all, last_ring_id-push_all)
      (keep_if-IsRising _ 0 (s.last_ring_id + 1) _
        (append-IsRising 0 s.last_ring_id s.rings _ h (omega arith)))

newer_all :
    (floor low high : ℕ) (rings : List Ring)
    → floor ≤ low
    → IsRising low high rings
    → newer floor rings ≡ rings
unfolding keep_if
newer_all floor low high [] l h = refl
newer_all floor low high (r ∷ rings) l h =
    keep_if-yes _ r rings (lt→ltb floor r.id (omega (arith, l, h.0)))
    ∙ ap (λ x. r ∷ x) (newer_all floor r.id high rings (omega (arith, l, h.0)) h.1)

last_id-le :
    (low high : ℕ) (seen rest : List Ring)
    → IsRising low high (seen ++ rest)
    → low ≤ last_id low seen
unfolding last_id
last_id-le low high [] rest h = omega arith
last_id-le low high (r ∷ seen) rest h = omega (arith, h.0, last_id-le r.id high seen rest h.1)

not_newer : (a b : ℕ) → b ≤ a → ltb a b ≡ false
not_newer a b h = ground arith

-- Rings that rise, from the end of a first part of them.
newer_rest :
    (low high : ℕ) (seen rest : List Ring)
    → IsRising low high (seen ++ rest)
    → newer (last_id low seen) (seen ++ rest) ≡ rest
unfolding last_id
newer_rest low high [] rest h = newer_all low low high rest (omega arith) h
newer_rest low high (r ∷ seen) rest h =
    keep_if-no _ r (seen ++ rest) (not_newer _ r.id (last_id-le r.id high seen rest h.1))
    ∙ newer_rest r.id high seen rest h.1

raise-IsRising :
    (low high a : ℕ) (rings : List Ring) → high ≤ a → IsRising low high rings → IsRising low a rings
raise-IsRising low high a [] l h = omega (arith, l, h)
raise-IsRising low high a (r ∷ rings) l h = (h.0, raise-IsRising r.id high a rings l h.1)

newer-IsRising :
    (floor low high : ℕ) (rings : List Ring)
    → IsRising low high rings
    → IsRising floor (high + floor) (newer floor rings)
unfolding keep_if
newer-IsRising floor low high [] h = omega arith
newer-IsRising floor low high (r ∷ rings) h = elim (Bool-cases (ltb floor r.id)) [
  | inl y ↦ rw (keep_if-yes (λ (q : Ring). ltb floor q.id) r rings y) (
      rw (newer_all floor r.id high rings (omega (arith, ltb→lt floor r.id y)) h.1)
        (ltb→lt floor r.id y, raise-IsRising r.id high (high + floor) rings (omega arith) h.1))
  | inr n ↦
      rw (keep_if-no (λ (q : Ring). ltb floor q.id) r rings n)
        (newer-IsRising floor r.id high rings h.1)
]

newer-newer :
    (c floor : ℕ) (rings : List Ring) → floor ≤ c → newer c (newer floor rings) ≡ newer c rings
unfolding keep_if
newer-newer c floor [] l = refl
newer-newer c floor (r ∷ rings) l = ground (arith, newer-newer c floor rings l)

take_split : (n : ℕ) (rings : List Ring) → (rest : List Ring) × (rings ≡ take n rings ++ rest)
take_split zero rings = (rings, refl)
take_split (suc n) [] = ([], refl)
take_split (suc n) (r ∷ rings) = let (rest, e) = take_split n rings in (rest, ap (λ x. r ∷ x) e)

append_assoc : (xs ys zs : List Ring) → (xs ++ ys) ++ zs ≡ xs ++ (ys ++ zs)
append_assoc [] ys zs = refl
append_assoc (x ∷ xs) ys zs = ap (λ l. x ∷ l) (append_assoc xs ys zs)

-- Where the rings rise, the rings after a poll's floor are a part that it saw and a rest: its page
-- holds what its tags match of the part seen, and the rings after its cursor are exactly the rest.
-- So a receiver that polls again from the cursor misses no ring and gets none twice.
pub feed_page_resumes :
    (rings : List Ring) (tags : List Text) (floor limit high : ℕ)
    → IsRising 0 high rings
    → (seen : List Ring) × (rest : List Ring) × (newer floor rings ≡ seen ++ rest)
      × ((feed_page rings tags floor limit).0 ≡ wanted tags seen)
      × (newer (feed_page rings tags floor limit).1 rings ≡ rest)
unfolding feed_page
feed_page_resumes rings tags floor limit high h =
    let (seen, left, e, p, c) =
      feed_loop-Covers tags limit floor (take (scan_limit limit) (newer floor rings)) in
    let (tail, f) = take_split (scan_limit limit) (newer floor rings) in
    let split = f ∙ ap (λ x. x ++ tail) e ∙ append_assoc seen left tail in
    let risen = subst (IsRising floor (high + floor)) split (newer-IsRising floor 0 high rings h) in
    (
      seen,
      left ++ tail,
      split,
      p,
      ap (λ x. newer x rings) c
          ∙ sym (
              newer-newer (last_id floor seen) floor rings
                (last_id-le floor (high + floor) seen (left ++ tail) risen))
          ∙ ap (newer (last_id floor seen)) split
          ∙ newer_rest floor (high + floor) seen (left ++ tail) risen,
    )
