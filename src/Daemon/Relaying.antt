-- ===== src/Daemon/Relaying.antt =====
-- When a ring counts as delivered, and how long the daemon waits before it tries again.
use shellbell.Base.{ℕ, zero, suc, ◌/◌, ◌^◌, ◌≡◌, ◌≤◌, ◌↔◌, none, some, min, arith}
use shellbell.Base.Words.{saturating_add, saturating_mul}
use shellbell.Base.Text.{Text}
use shellbell.Activity.Session.{Uuid}
use shellbell.Daemon.{
  Submission, no_credentials, bad_endpoint, not_sent, answered, accepted, classify, base_delay_ms,
  retry_delay,
}

-- A submission counts as delivered exactly when the relay answered with a success and named the
-- event that was submitted.
pub classify-accepted_iff :
    (event_id : Uuid) (r : Submission)
    → (classify event_id r ≡ accepted) ↔ (
        (code : ℕ) × (text : Text) × (r ≡ answered code (some event_id) text)
        × (200 ≤ code)
        × (code ≤ 299))
unfolding classify
classify-accepted_iff event_id (no_credentials e) = (λ h. cc, λ (c, t, h, _, _). cc)
classify-accepted_iff event_id bad_endpoint = (λ h. cc, λ (c, t, h, _, _). cc)
classify-accepted_iff event_id (not_sent e) = (λ h. cc, λ (c, t, h, _, _). cc)
classify-accepted_iff event_id (answered code none text) =
    (λ h. ground arith, λ (c, t, h, _, _). cc)
classify-accepted_iff event_id (answered code (some id) text) = (
  λ h. (code, text, ground arith, ground arith, ground arith),
  λ (c, t, h, l, u). ground (arith, h, l, u),
)

power_pos : (n : ℕ) → 1 ≤ 2 ^ n
power_pos zero = omega arith
power_pos (suc n) = omega (arith, power_pos n)

-- With a jitter of at most a quarter of the delay before it, the daemon waits between five seconds
-- and eighteen minutes and three quarters, however often it has tried.
pub retry_delay_bounds :
    (attempts jitter : ℕ)
    → jitter ≤ base_delay_ms attempts / 4
    → (5000 ≤ retry_delay attempts jitter) × (retry_delay attempts jitter ≤ 1125000)
unfolding retry_delay base_delay_ms saturating_add saturating_mul
retry_delay_bounds attempts jitter h =
    (ground (arith, power_pos (min attempts 8)), ground (arith, power_pos (min attempts 8)))
