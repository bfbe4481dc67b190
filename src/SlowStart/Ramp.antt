-- ===== src/SlowStart/Ramp.antt =====
-- The ramp of src/slow_start.rs: the effective maximum over time, and the recommended wait.
use native.Mathlib.Nat.{
  mul-le-mul_right, mul-le-mul_left, le-div_iff_mul-le, div-le_of_le-mul, div-mul-le_self, mul_comm,
}
use shared_rate_limiter.Base.{ℕ, ◌%◌, ◌^◌, ◌+◌, ◌-◌, ◌*◌, ◌/◌, ◌≤◌, ◌<◌, ◌≡◌, ◌↔◌, arith}
use shared_rate_limiter.Word.{u32_max, duration_max, div_ceil, div_ceil-reaches, div_ceil-least}
use shared_rate_limiter.Types.{Duration}
use shared_rate_limiter.Config.{SlowStart}
use shared_rate_limiter.SlowStart.{effective_max, duration_from_nanos, retry_after_for_cost}

-- A number of nanoseconds that a `Duration` can hold is not changed.
duration_from_nanos_lem : (n : ℕ) → n ≤ duration_max → duration_from_nanos n ≡ n
unfolding duration_from_nanos
duration_from_nanos_lem n h = ground arith

-- The ramp within its length.
pub scaled-le : (max e r : ℕ) → 0 < r → e ≤ r → max * e / r ≤ max
scaled-le max e r pos h = div-le_of_le-mul r (omega (arith, mul-le-mul_left max h, mul_comm max r))

scaled_mono : (max r : ℕ) {d e : ℕ} → 0 < r → d ≤ e → max * d / r ≤ max * e / r
scaled_mono max r {d} {e} pos h =
    (le-div_iff_mul-le pos).1 (omega (arith, div-mul-le_self (max * d) r, mul-le-mul_left max h))

pub effective_max-le :
    (max : ℕ) (slow : SlowStart) (started_at now : Duration)
    → effective_max max slow started_at now ≤ max
unfolding effective_max
effective_max-le max slow started_at now =
    ground (arith, scaled-le max (now - started_at) slow.ramp)

-- The cast of the share to a `u32` loses nothing.
pub cast_lem : (max e r : ℕ) → max ≤ u32_max → 0 < r → e ≤ r → (max * e / r) % 2 ^ 32 ≡ max * e / r
cast_lem max e r fits pos h = omega (arith, scaled-le max e r pos h, fits)

-- The effective maximum of a `u32` never falls as time goes on, stays within the configured one, and is the
-- configured one at any time from the end of the ramp on.
pub effective_max_mono :
    (max : ℕ) (slow : SlowStart) (started_at now later : Duration)
    → max ≤ u32_max
    → now ≤ later
    → (effective_max max slow started_at now ≤ effective_max max slow started_at later)
      × (effective_max max slow started_at later ≤ max)
      × (effective_max max slow started_at (started_at + slow.ramp + later) ≡ max)
unfolding effective_max
effective_max_mono max slow started_at now later fits h = (
  ground (
    arith,
    scaled-le max (now - started_at) slow.ramp,
    scaled_mono max slow.ramp {d = now - started_at} {e = later - started_at},
    cast_lem max (now - started_at) slow.ramp,
    cast_lem max (later - started_at) slow.ramp,
  ),
  effective_max-le max slow started_at later,
  ground arith,
)

module _ (max cost r t : ℕ) (pos : 0 < r) (some_max : 0 < max) where
  reached_of_needed : div_ceil (cost * r) max ≤ t → cost ≤ max * t / r
  reached_of_needed h = (le-div_iff_mul-le pos).1 (
      omega
        (arith, div_ceil-reaches (cost * r) max some_max, mul-le-mul_right max h, mul_comm max t))

  needed_of_reached : cost ≤ max * t / r → div_ceil (cost * r) max ≤ t
  needed_of_reached h =
      div_ceil-least (cost * r) max t some_max
        (omega (arith, (le-div_iff_mul-le pos).0 h, mul_comm max t))

needed-le : (max cost r : ℕ) → 0 < max → cost ≤ max → div_ceil (cost * r) max ≤ r
needed-le max cost r pos h =
    div_ceil-least (cost * r) max r pos (omega (arith, mul-le-mul_right r h, mul_comm max r))

-- For a cost within the configured maximum, a `u32`, from the start of a ramp that is not 0, the
-- recommended wait is the least one after which the effective maximum admits the cost: it is 0 if the
-- cost fits already, no shorter wait is enough, and every longer one is.
pub retry_after_for_cost-least :
    (max : ℕ) (slow : SlowStart) (started_at now cost w : ℕ)
    → 0 < slow.ramp
    → slow.ramp ≤ duration_max
    → started_at ≤ now
    → 0 < cost
    → cost ≤ max
    → max ≤ u32_max
    → (cost ≤ effective_max max slow started_at (now + w))
      ↔ (retry_after_for_cost max slow started_at now cost ≤ w)
unfolding effective_max retry_after_for_cost
retry_after_for_cost-least max slow started_at now cost w pos fits order some_cost h bound =
    let elapsed = now - started_at in
    let e : now + w - started_at ≡ elapsed + w = omega arith in
    let some_max : 0 < max = omega arith in
    let least = needed-le max cost slow.ramp some_max h in
    let plain = duration_from_nanos_lem (div_ceil (cost * slow.ramp) max) (omega (arith, least)) in
    rw e (
      λ g. ground (
        arith,
        plain,
        least,
        cast_lem max (elapsed + w) slow.ramp bound pos,
        needed_of_reached max cost slow.ramp (elapsed + w) pos some_max,
      ),
      λ g. ground (
        arith,
        plain,
        least,
        cast_lem max (elapsed + w) slow.ramp bound pos,
        reached_of_needed max cost slow.ramp (elapsed + w) pos some_max,
      ),
    )
