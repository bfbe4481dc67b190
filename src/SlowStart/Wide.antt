-- ===== src/SlowStart/Wide.antt =====
-- The `u64` functions of src/slow_start.rs, whose products saturate, against the `u32` ones.
use native.Mathlib.Nat.{mul-le-mul_right, mul-le-mul_left, le-div_iff_mul-le, div-mul-le_self}
use shared_rate_limiter.Base.{ℕ, ◌-◌, ◌*◌, ◌/◌, ◌≤◌, ◌<◌, ◌≡◌, arith}
use shared_rate_limiter.Word.{u32_max, duration_max, u128_max, mul_u128}
use shared_rate_limiter.Types.{Duration}
use shared_rate_limiter.Config.{SlowStart}
use shared_rate_limiter.SlowStart.{
  effective_max, effective_u64, retry_after_for_cost, retry_after_for_cost_u64,
}
use shared_rate_limiter.SlowStart.Ramp.{scaled-le, cast_lem}

-- A `u32` times a `Duration` fits a `u128`.
product_fits : (a d : ℕ) → a ≤ u32_max → d ≤ duration_max → a * d ≤ u128_max
product_fits a d h g = omega (
  arith,
  mul-le-mul_right {m = a} {n = u32_max} d h,
  mul-le-mul_left {m = d} {n = duration_max} u32_max g,
)

-- Where the capacity and the cost fit a `u32`, for any ramp that a `Duration` holds, the functions on `u64`
-- are those on `u32`: the effective capacity and the wait for a cost. No product saturates, and no cast
-- cuts.
pub wide-eq :
    (capacity : ℕ) (slow : SlowStart) (started_at now cost : ℕ)
    → capacity ≤ u32_max
    → cost ≤ u32_max
    → slow.ramp ≤ duration_max
    → (effective_u64 capacity slow started_at now ≡ effective_max capacity slow started_at now)
      × (retry_after_for_cost_u64 capacity slow started_at now cost
          ≡ retry_after_for_cost capacity slow started_at now cost)
unfolding effective_u64 effective_max retry_after_for_cost_u64 retry_after_for_cost
wide-eq capacity slow started_at now cost bound some_cost long =
    let exact = product_fits capacity slow.ramp bound long in
    let exact' = product_fits cost slow.ramp some_cost long in
    (
      ground (
        arith,
        scaled-le capacity (now - started_at) slow.ramp,
        mul-le-mul_left {m = now - started_at} {n = slow.ramp} capacity,
        cast_lem capacity (now - started_at) slow.ramp,
        exact,
      ),
      ground (arith, exact'),
    )

div_mono : (r : ℕ) {x y : ℕ} → 0 < r → x ≤ y → x / r ≤ y / r
div_mono r {x} {y} pos h = (le-div_iff_mul-le pos).1 (omega (arith, div-mul-le_self x r))

-- Whatever saturates, the effective capacity stays within the configured one.
pub effective_u64-le :
    (capacity : ℕ) (slow : SlowStart) (started_at now : Duration)
    → effective_u64 capacity slow started_at now ≤ capacity
unfolding effective_u64
effective_u64-le capacity slow started_at now =
    let elapsed = now - started_at in
    ground (
      arith,
      scaled-le capacity elapsed slow.ramp,
      div_mono slow.ramp {x = mul_u128 capacity elapsed} {y = capacity * elapsed},
    )
