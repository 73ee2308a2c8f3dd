-- ===== src/Relay/Rings/Submit.antt =====
-- Submitting the same ring again (crates/shellbell-relay/src/lib.rs, `submit_ring`).
use shellbell.Base.{
  ℕ, ◌+◌, ◌*◌, ◌≡◌, refl, List, [], ◌∷◌, ◌++◌, Option, none, some, Bool, true, false, not, keep_if,
  length, count_if, ==_self, arith, is_some, if◌then◌else◌, inl, inr, Option-cases,
}
use shellbell.Base.Int.{ℤ, pos, ◌-ℤ◌, ltb_ℤ, -ℤ_parts}
use shellbell.Base.Result.{Result, ok}
use shellbell.Base.Text.{Text}
use shellbell.Activity.Session.{Uuid}
use shellbell.Relay.State.{
  DateTime, Ring, Receiver, Relay, Source, AppError, first, gets, pure, ◌>>=◌,
}
use shellbell.Relay.Rings.{
  DeliveryOutcome, is_ring, delete_old, insert_ring, record_outcome, push_all, accept_ring,
  new_ring, is_target, is_pull_target, duplicate_response, day, RingAcceptedResponse, take_ring,
  unless_seen,
}

-- A row that fails the test does not hide one behind it.
first-append :
    (p : Ring → Bool) (xs : List Ring) (r : Ring)
    → first p xs ≡ none
    → p r ≡ true
    → first p (xs ++ (r ∷ [])) ≡ some r
first-append p [] r h y = rw y refl
first-append p (x ∷ xs) r h y = ground (arith, first-append p xs r)

pub rings-push_all :
    (deliver : Receiver → DeliveryOutcome) (ring_id : ℕ) (now : DateTime) (rs : List Receiver)
    (s : Relay)
    → (push_all deliver ring_id now rs s).rings ≡ s.rings
unfolding push_all record_outcome
rings-push_all deliver ring_id now [] s = refl
rings-push_all deliver ring_id now (r ∷ rs) s =
    rings-push_all deliver ring_id now rs (record_outcome ring_id now r (deliver r) s)

pub last_ring_id-push_all :
    (deliver : Receiver → DeliveryOutcome) (ring_id : ℕ) (now : DateTime) (rs : List Receiver)
    (s : Relay)
    → (push_all deliver ring_id now rs s).last_ring_id ≡ s.last_ring_id
unfolding push_all record_outcome
last_ring_id-push_all deliver ring_id now [] s = refl
last_ring_id-push_all deliver ring_id now (r ∷ rs) s =
    last_ring_id-push_all deliver ring_id now rs (record_outcome ring_id now r (deliver r) s)

first-keep_if :
    (p q : Ring → Bool) (xs : List Ring) → first p xs ≡ none → first p (keep_if q xs) ≡ none
unfolding keep_if
first-keep_if p q [] h = refl
first-keep_if p q (x ∷ xs) h = ground (arith, first-keep_if p q xs)

keep_if-append :
    (p : Ring → Bool) (xs : List Ring) (r : Ring)
    → p r ≡ true
    → keep_if p (xs ++ (r ∷ [])) ≡ keep_if p xs ++ (r ∷ [])
unfolding keep_if
keep_if-append p [] r y = rw (y, keep_if) refl
keep_if-append p (x ∷ xs) r y = ground (arith, keep_if-append p xs r y)

not_old : (now : ℤ) (n : ℕ) → not (ltb_ℤ now (now -ℤ pos n)) ≡ true
not_old now n = ground (arith, -ℤ_parts now (pos n))

kept_found :
    (p q : Ring → Bool) (xs : List Ring) (r : Ring)
    → first p xs ≡ none
    → p r ≡ true
    → q r ≡ true
    → first p (keep_if q (xs ++ (r ∷ []))) ≡ some r
kept_found p q xs r h y z =
    rw (keep_if-append q xs r z) (first-append p (keep_if q xs) r (first-keep_if p q xs h) y)

-- A ring with a new event is kept, whatever the push service answers, and is found again.
accept_ring_found :
    (sha256 : Text → List ℕ) (uuid_text : Uuid → Text) (deliver : Receiver → DeliveryOutcome)
    (source : Source) (event_id : Uuid) (message : Option Text) (tags : List Text) (now : DateTime)
    (s : Relay)
    → first (is_ring source.id event_id) s.rings ≡ none
    → (q : Ring) × (first
          (is_ring source.id event_id)
          (accept_ring sha256 uuid_text deliver source event_id message tags now s).0.rings
        ≡ some q)
      × ((accept_ring sha256 uuid_text deliver source event_id message tags now s).1
          ≡ ok (202, record (duplicate_response sha256 uuid_text event_id q) { duplicate = false }))
unfolding accept_ring insert_ring delete_old
accept_ring_found sha256 uuid_text deliver source event_id message tags now s h = (
  new_ring source event_id message tags now (s.last_ring_id + 1) (
      length (keep_if (is_target tags) s.receivers)
      + count_if (is_pull_target tags) s.pull_receivers),
  rw rings-push_all (
      kept_found (is_ring source.id event_id) _ s.rings _ h (rw (==_self, ==_self) refl)
        (not_old now (s.history_retention_days * day))),
  refl,
)

-- What is taken in after the guards of `submit_ring`, twice.
module _ (sha256 : Text → List ℕ) (uuid_text : Uuid → Text)
    (deliver deliver' : Receiver → DeliveryOutcome) (source again : Source) (event_id : Uuid)
    (message message' : Option Text) (tags tags' : List Text) (now now' : DateTime)
    (s : Relay) where
  abbrev pub first_time : Relay × Result AppError (ℕ × RingAcceptedResponse)
  first_time = take_ring sha256 uuid_text deliver source event_id message tags now s

  abbrev pub second_time : Relay × Result AppError (ℕ × RingAcceptedResponse)
  second_time = take_ring sha256 uuid_text deliver' again event_id message' tags' now' first_time.0

  -- Two submissions of one event by one source, both of which pass the guards, the second right
  -- after the first: the first is answered with 202 where the relay has no ring of this source with
  -- this event, and else with 200 and as a duplicate. The second, whatever its message, its tags
  -- and its time, changes nothing, and is answered with 200 and the first answer again, marked as a
  -- duplicate.
  pub take_ring_twice :
      again.id ≡ source.id
      → (a : RingAcceptedResponse) × (first_time.1 ≡ ok (if a.duplicate then 200 else 202, a))
        × (a.duplicate ≡ is_some (first (is_ring source.id event_id) s.rings))
        × (second_time ≡ (first_time.0, ok (200, record a { duplicate = true })))
  unfolding take_ring unless_seen ◌>>=◌ gets pure
  take_ring_twice e = elim (Option-cases (first (is_ring source.id event_id) s.rings)) [
    | inl n ↦
        let (q, f, r) =
          accept_ring_found sha256 uuid_text deliver source event_id message tags now s n in
        (
          record (duplicate_response sha256 uuid_text event_id q) { duplicate = false },
          rw n r,
          rw n refl,
          rw e (rw n (rw f refl)),
        )
    | inr (q, y) ↦ (
      duplicate_response sha256 uuid_text event_id q,
      rw y refl,
      rw y refl,
      rw e (rw y (rw y refl)),
    )
  ]
