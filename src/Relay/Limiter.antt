-- ===== src/Relay/Limiter.antt =====
-- The fixed-window rate limiter (crates/shellbell-relay/src/lib.rs, lines 68 to 87). A time is a
-- number of nanoseconds on the monotonic clock. The map of counters is a list with one entry a key.
pub mod Keys
pub mod Windows
use shellbell.Base.{ℕ, ◌+◌, ◌-◌, List, [], ◌∷◌, Bool, true, false, leb, if◌then◌else◌}
use shellbell.Base.Text.{Text, text_eq}
use shellbell.Relay.State.{Entry, Relay, Handler, rate_limited, ensure, ◌>>◌, ◌>>=◌}

-- The counter after the window was renewed, if it has passed; `duration_since` stops at zero.
unfoldable pub renew : ℕ → ℕ → Entry → Entry
renew now window e = if leb window (now - e.start) then record e { start = now; count = 0 } else e

unfoldable pub count_call : ℕ → ℕ → ℕ → Entry → Entry × Bool
unfolding renew
count_call limit window now e =
    let f = renew now window e in
    if leb limit f.count then (f, false) else (record f { count = f.count + 1 }, true)

-- `entries.entry(key).or_insert((now, 0))`
unfoldable pub check : List Entry → Text → ℕ → ℕ → ℕ → List Entry × Bool
unfolding count_call
check [] key limit window now =
    let (e, allowed) = count_call limit window now (record { key = key; start = now; count = 0 }) in
    (e ∷ [], allowed)
check (e ∷ entries) key limit window now =
    let rest = check entries key limit window now in
    let (f, allowed) = count_call limit window now e in
    if text_eq e.key key then (f ∷ entries, allowed) else (e ∷ rest.0, rest.1)

-- `if !state.limiter.check(…) { return Err(AppError::rate_limited()) }`
unfoldable pub limit_rate : Text → ℕ → ℕ → ℕ → Handler (Unit {0})
limit_rate key limit window now s =
    let (entries, allowed) = check s.entries key limit window now in
    ensure allowed rate_limited (record s { entries = entries })
