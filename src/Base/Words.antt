-- ===== src/Base/Words.antt =====
-- Rust's machine integers: u64 and u32 as natural numbers with their bound, i64 as an integer, the
-- saturating operations, and the conversions with `try_from` that the program uses.
use Prim.Native.Nat.{ℕ, ◌+◌, ◌-◌, ◌*◌, ◌≤◌}
use mathlib.Core.Path.{◌≡◌}
use mathlib.Core.Option.{Option, none, some}
use native.Mathlib.Omega.{arith}
use shellbell.Base.Tests.{leb, if◌then◌else◌}
use shellbell.Base.Int.{ℤ, pos, negsuc, ◌+ℤ◌, ◌-ℤ◌, ◌≤ℤ◌, ltb_ℤ}

abbrev pub u32_max : ℕ
u32_max = 4294967295

abbrev pub u64_max : ℕ
u64_max = 18446744073709551615

abbrev pub i64_max : ℕ
i64_max = 9223372036854775807

-- i64::MIN is -(i64_max + 1).
abbrev pub i64_min : ℤ
i64_min = negsuc i64_max

-- u64::saturating_add, saturating_sub and saturating_mul.
unfoldable pub saturating_add : ℕ → ℕ → ℕ
saturating_add a b = if leb (a + b) u64_max then a + b else u64_max

unfoldable pub saturating_sub : ℕ → ℕ → ℕ
saturating_sub a b = a - b

unfoldable pub saturating_mul : ℕ → ℕ → ℕ
saturating_mul a b = if leb (a * b) u64_max then a * b else u64_max

-- The nearest i64.
unfoldable pub clamp_i64 : ℤ → ℤ
clamp_i64 z = if ltb_ℤ (pos i64_max) z then pos i64_max else if ltb_ℤ z i64_min then i64_min else z

-- i64::saturating_add and i64::saturating_sub.
unfoldable pub saturating_add_i64 : ℤ → ℤ → ℤ
unfolding clamp_i64
saturating_add_i64 a b = clamp_i64 (a +ℤ b)

unfoldable pub saturating_sub_i64 : ℤ → ℤ → ℤ
unfolding clamp_i64
saturating_sub_i64 a b = clamp_i64 (a -ℤ b)

-- u64::try_from of an i64, and i64::try_from of an unsigned value.
abbrev pub u64_try_from : ℤ → Option ℕ
u64_try_from (pos n) = some n
u64_try_from (negsuc n) = none

abbrev pub i64_try_from : ℕ → Option ℤ
i64_try_from n = if leb n i64_max then some (pos n) else none

pub saturating_add-le : (a b : ℕ) → saturating_add a b ≤ u64_max
unfolding saturating_add
saturating_add-le a b = ground arith

pub saturating_add_exact : (a b : ℕ) → a + b ≤ u64_max → saturating_add a b ≡ a + b
unfolding saturating_add
saturating_add_exact a b h = ground arith

pub clamp_i64_lower : (z : ℤ) → i64_min ≤ℤ clamp_i64 z
unfolding clamp_i64
clamp_i64_lower z = ground arith

pub clamp_i64_upper : (z : ℤ) → clamp_i64 z ≤ℤ pos i64_max
unfolding clamp_i64
clamp_i64_upper z = ground arith
