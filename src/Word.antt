-- ===== src/Word.antt =====
-- The machine integers and `std::time::Duration` as the crate uses them. A `u32`, a `u64` or a
-- `u128` is a number with its bound kept in the statements, and a `Duration` is its count of
-- nanoseconds, at most `duration_max`.
use native.Mathlib.Nat.{mul-le-mul_right, div-add-mod'}
use shared_rate_limiter.Base.{
  ℕ, ◌+◌, ◌-◌, ◌*◌, ◌/◌, ◌%◌, ◌^◌, ◌≤◌, ◌<◌, min, if◌then◌else◌, ◌==◌, arith,
}

abbrev pub u32_max : ℕ
u32_max = 2 ^ 32 - 1

abbrev pub u64_max : ℕ
u64_max = 2 ^ 64 - 1

abbrev pub u128_max : ℕ
u128_max = 2 ^ 128 - 1

abbrev pub nanos_per_sec : ℕ
nanos_per_sec = 1_000_000_000

-- `Duration::MAX`: `u64::MAX` seconds and 999_999_999 nanoseconds.
abbrev pub duration_max : ℕ
duration_max = 2 ^ 64 * nanos_per_sec - 1

-- `u32::saturating_add` and its like. `saturating_sub` is the subtraction of ℕ.
abbrev pub add_u32 : ℕ → ℕ → ℕ
add_u32 a b = min (a + b) u32_max

abbrev pub add_u64 : ℕ → ℕ → ℕ
add_u64 a b = min (a + b) u64_max

abbrev pub mul_u128 : ℕ → ℕ → ℕ
mul_u128 a b = min (a * b) u128_max

-- `a + b` on `u64` in a release build: it wraps.
abbrev pub wrapping_add_u64 : ℕ → ℕ → ℕ
wrapping_add_u64 a b = (a + b) % 2 ^ 64

-- `Duration::saturating_add`.
abbrev pub add_duration : ℕ → ℕ → ℕ
add_duration a b = min (a + b) duration_max

-- `u128::div_ceil`, at a divisor that is not 0.
unfoldable pub div_ceil : ℕ → ℕ → ℕ
div_ceil a b = if a % b == 0 then a / b else a / b + 1

-- It is the least `q` with `a ≤ q * b`.
pub div_ceil-reaches : (a b : ℕ) → 0 < b → a ≤ div_ceil a b * b
unfolding div_ceil
div_ceil-reaches a b h = grind arith

pub div_ceil-least : (a b q : ℕ) → 0 < b → a ≤ q * b → div_ceil a b ≤ q
unfolding div_ceil
div_ceil-least a b q h k = ground (
  arith,
  mul-le-mul_right {m = q} {n = a / b} b,
  mul-le-mul_right {m = q + 1} {n = a / b} b,
  div-add-mod' a b,
)
