-- ===== src/Relay/Limiter/Windows.antt =====
-- How many calls the limiter lets through.
use shellbell.Base.{ℕ, ◌+◌, ◌*◌, ◌≤◌, ◌<◌, List, [], ◌∷◌, if◌then◌else◌, arith, All, All-map_imp}
use shellbell.Relay.State.{Entry}
use shellbell.Relay.Limiter.{renew, count_call}

-- The calls of one key at the given times, and how many of them are let through.
unfoldable pub allowed_calls : ℕ → ℕ → Entry → List ℕ → ℕ
allowed_calls limit window e [] = 0
allowed_calls limit window e (now ∷ times) =
    let (f, allowed) = count_call limit window now e in
    let rest = allowed_calls limit window f times in if allowed then rest + 1 else rest

-- Every call falls before a time.
abbrev pub Before : ℕ → List ℕ → Type 0
Before stop times = All (λ t. t < stop) times

-- While the window has not passed, the calls let through and those counted stay within the limit.
one_window :
    (limit window : ℕ) (e : Entry) (times : List ℕ)
    → 0 < window
    → Before (e.start + window) times
    → e.count ≤ limit
    → e.count + allowed_calls limit window e times ≤ limit
unfolding allowed_calls count_call
one_window limit window e [] p b h = omega arith
one_window limit window e (now ∷ times) p b h = ground (
  arith,
  b.0,
  one_window limit window (record e { count = e.count + 1 }) times p b.1,
  one_window limit window e times p b.1,
)

two_windows :
    (limit window low : ℕ) (e : Entry) (times : List ℕ)
    → 0 < window
    → All (λ t. low ≤ t) times
    → Before (low + window) times
    → e.count ≤ limit
    → e.count + allowed_calls limit window e times ≤ limit + limit
unfolding allowed_calls count_call renew
two_windows limit window low e [] p l b h = omega arith
two_windows limit window low e (now ∷ times) p l b h =
    let later =
      All-map_imp (λ t. t < low + window) (λ t. t < now + window) times (λ t k. omega (arith, l.0))
        b.1 in
    ground (
      arith,
      two_windows limit window low (record e { count = e.count + 1 }) times p l.1 b.1,
      two_windows limit window low e times p l.1 b.1,
      one_window limit window (record e { start = now; count = 1 }) times p later,
      one_window limit window (record e { start = now; count = 0 }) times p later,
    )

pub at_most_twice_limit :
    (limit window low : ℕ) (e : Entry) (times : List ℕ)
    → 0 < window
    → All (λ t. low ≤ t) times
    → Before (low + window) times
    → e.count ≤ limit
    → allowed_calls limit window e times ≤ 2 * limit
at_most_twice_limit limit window low e times p l b h =
    omega (arith, two_windows limit window low e times p l b h)
