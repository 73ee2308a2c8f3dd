-- ===== src/Relay/Limiter/Keys.antt =====
-- The limiter over calls with any keys (crates/shellbell-relay/src/lib.rs, `RateLimiter::check`).
use shellbell.Base.{
  ℕ, ◌+◌, ◌*◌, ◌≡◌, ◌≤◌, ◌<◌, refl, ◌∙◌, ap, inl, inr, List, [], ◌∷◌, true, false, ◌&&◌,
  if◌then◌else◌, arith, Bool-cases, All,
}
use shellbell.Base.Text.{Text, text_eq, text_eq_refl, text_eq_iff}
use shellbell.Relay.State.{Entry}
use shellbell.Relay.Limiter.{renew, count_call, check}
use shellbell.Relay.Limiter.Windows.{allowed_calls, Before, at_most_twice_limit}

-- The counter of a key, new where there is none.
abbrev pub counter : List Entry → Text → ℕ → Entry
counter [] key now = record { key = key; start = now; count = 0 }
counter (e ∷ entries) key now = if text_eq e.key key then e else counter entries key now

key-count_call : (limit window now : ℕ) (e : Entry) → (count_call limit window now e).0.key ≡ e.key
unfolding count_call renew
key-count_call limit window now e = ground arith

-- A check of a key decides as that key's own counter does, and leaves that counter as the call makes
-- it.
check-counter :
    (entries : List Entry) (key : Text) (limit window now later : ℕ)
    → ((check entries key limit window now).1
        ≡ (count_call limit window now (counter entries key now)).1)
      × (counter (check entries key limit window now).0 key later
          ≡ (count_call limit window now (counter entries key now)).0)
unfolding check
check-counter [] key limit window now later = (refl, rw (key-count_call, text_eq_refl) refl)
check-counter (e ∷ entries) key limit window now later = elim (Bool-cases (text_eq e.key key)) [
  | inl y ↦ rw (y, key-count_call) (rw y (refl, refl))
  | inr n ↦ rw n (rw n (check-counter entries key limit window now later))
]

-- The counters of the other keys stay.
check-other :
    (entries : List Entry) (key other : Text) (limit window now later : ℕ)
    → text_eq key other ≡ false
    → counter (check entries key limit window now).0 other later ≡ counter entries other later
unfolding check
check-other [] key other limit window now later n = rw (key-count_call, n) refl
check-other (e ∷ entries) key other limit window now later n =
    elim (Bool-cases (text_eq e.key key)) [
      | inl y ↦
          let z : text_eq e.key other ≡ false =
            ap (λ k. text_eq k other) ((text_eq_iff e.key key).0 y) ∙ n in
          rw (y, key-count_call, z) refl
      | inr m ↦ rw m (
          ap (λ x. if text_eq e.key other then e else x)
            (check-other entries key other limit window now later n))
    ]

-- A call of `check`.
pub record LimiterCall : Type 0 where
  pub key : Text
  pub limit : ℕ
  pub window : ℕ
  pub now : ℕ

-- The calls with a key that are let through, among calls with any keys.
unfoldable pub allowed_of : Text → List Entry → List LimiterCall → ℕ
allowed_of key entries [] = 0
allowed_of key entries (c ∷ calls) =
    let (later, allowed) = check entries c.key c.limit c.window c.now in
    let rest = allowed_of key later calls in if text_eq c.key key && allowed then rest + 1 else rest

-- When the calls with a key came.
abbrev times_of : Text → List LimiterCall → List ℕ
times_of key [] = []
times_of key (c ∷ calls) =
    if text_eq c.key key then c.now ∷ times_of key calls else times_of key calls

abbrev first_time : List ℕ → ℕ
first_time [] = 0
first_time (t ∷ times) = t

-- The calls with a key have one limit and one window, and fall in a stretch as long as that window.
abbrev pub KeepsTo : Text → ℕ → ℕ → ℕ → List LimiterCall → Type 0
KeepsTo key limit window low [] = Unit
KeepsTo key limit window low (c ∷ calls) =
    (text_eq c.key key ≡ true
      → (c.limit ≡ limit) × (c.window ≡ window) × (low ≤ c.now) × (c.now < low + window))
    × KeepsTo key limit window low calls

-- One call with the key, before the others.
own_call :
    (key : Text) (limit window now : ℕ) (entries : List Entry) (calls : List LimiterCall)
    (times : List ℕ)
    → allowed_of key (check entries key limit window now).0 calls
      ≡ allowed_calls limit window
          (counter (check entries key limit window now).0 key (first_time times))
          times
    → (if (check entries key limit window now).1
        then allowed_of key (check entries key limit window now).0 calls + 1
        else allowed_of key (check entries key limit window now).0 calls)
      ≡ allowed_calls limit window (counter entries key now) (now ∷ times)
unfolding allowed_calls
own_call key limit window now entries calls times ih =
    let (p, q) = check-counter entries key limit window now (first_time times) in
    rw ih (rw (p, q) refl)

allowed_of-eq :
    (key : Text) (limit window low : ℕ) (calls : List LimiterCall) (entries : List Entry)
    → KeepsTo key limit window low calls
    → allowed_of key entries calls
      ≡ allowed_calls limit window
          (counter entries key (first_time (times_of key calls)))
          (times_of key calls)
unfolding allowed_of allowed_calls
allowed_of-eq key limit window low [] entries h = refl
allowed_of-eq key limit window low (c ∷ calls) entries h = elim (Bool-cases (text_eq c.key key)) [
  | inl y ↦
      let (a, b, _, _) = h.0 y in
      rw ((text_eq_iff c.key key).0 y, a, b, text_eq_refl)
        (own_call key limit window c.now entries calls (times_of key calls)
          (allowed_of-eq key limit window low calls _ h.1))
  | inr n ↦ rw n (
      allowed_of-eq key limit window low calls (check entries c.key c.limit c.window c.now).0 h.1
      ∙ ap (λ e. allowed_calls limit window e (times_of key calls))
          (check-other entries c.key key c.limit c.window c.now (first_time (times_of key calls))
            n))
]

counter-count :
    (entries : List Entry) (key : Text) (now later : ℕ)
    → (counter entries key now).count ≡ (counter entries key later).count
counter-count [] key now later = refl
counter-count (e ∷ entries) key now later = ground (arith, counter-count entries key now later)

times_of-between :
    (key : Text) (limit window low : ℕ) (calls : List LimiterCall)
    → KeepsTo key limit window low calls
    → All (λ t. low ≤ t) (times_of key calls) × Before (low + window) (times_of key calls)
times_of-between key limit window low [] h = (tt, tt)
times_of-between key limit window low (c ∷ calls) h =
    let (l, b) = times_of-between key limit window low calls h.1 in
    elim (Bool-cases (text_eq c.key key)) [
      | inl y ↦ let (_, _, above, below) = h.0 y in rw y ((above, l), (below, b))
      | inr n ↦ rw n (l, b)
    ]

-- Where the window is not empty and the counter of a key, if there is one, is within the limit: of
-- any checks, with whatever other keys, limits and times between them, among which those with this
-- key have this limit and this window and lie in a stretch of time as long as the window, the
-- limiter lets at most twice the limit with this key through.
pub at_most_twice_each :
    (key : Text) (limit window low : ℕ) (entries : List Entry) (calls : List LimiterCall)
    → 0 < window
    → KeepsTo key limit window low calls
    → (counter entries key 0).count ≤ limit
    → allowed_of key entries calls ≤ 2 * limit
at_most_twice_each key limit window low entries calls p h l =
    let times = times_of key calls in
    let (above, below) = times_of-between key limit window low calls h in
    let start = counter entries key (first_time times) in
    let e = allowed_of-eq key limit window low calls entries h in
    let counted = counter-count entries key (first_time times) 0 in
    omega (
      arith,
      e,
      at_most_twice_limit limit window low start times p above below (omega (arith, counted, l)),
    )
