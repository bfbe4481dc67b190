-- ===== src/SlowStart.antt =====
-- src/slow_start.rs: the share of the configured capacity that a ramp allows, and the wait until a
-- cost fits. `u128` products that cannot overflow are written without a bound, as in the source.
pub mod Ramp
pub mod Wide
use shared_rate_limiter.Base.{
  ℕ, ◌^◌, ◌-◌, ◌*◌, ◌/◌, ◌%◌, ◌+◌, min, if◌then◌else◌, leb, ltb, ◌==◌, ◌||◌,
}
use shared_rate_limiter.Word.{u64_max, duration_max, nanos_per_sec, mul_u128, div_ceil}
use shared_rate_limiter.Types.{Duration}
use shared_rate_limiter.Config.{SlowStart}

unfoldable pub effective_max : ℕ → SlowStart → Duration → Duration → ℕ
effective_max max_per_window slow started_at now =
    if slow.ramp == 0
    then max_per_window
    else (let elapsed = now - started_at in
        if leb slow.ramp elapsed
        then max_per_window
        else (max_per_window * elapsed / slow.ramp) % 2 ^ 32)

unfoldable pub effective_u64 : ℕ → SlowStart → Duration → Duration → ℕ
effective_u64 capacity slow started_at now =
    if slow.ramp == 0
    then capacity
    else (let elapsed = now - started_at in
        if leb slow.ramp elapsed
        then capacity
        else min (mul_u128 capacity elapsed / slow.ramp) u64_max)

unfoldable pub duration_from_nanos : ℕ → Duration
duration_from_nanos n =
    let secs = n / nanos_per_sec in
    if ltb u64_max secs then duration_max else secs * nanos_per_sec + n % nanos_per_sec

unfoldable pub retry_after_for_cost : ℕ → SlowStart → Duration → Duration → ℕ → Duration
unfolding duration_from_nanos
retry_after_for_cost max_per_window slow started_at now cost =
    if slow.ramp == 0 || max_per_window == 0
    then 0
    else (let elapsed = now - started_at in
        if leb slow.ramp elapsed
        then 0
        else if ltb max_per_window cost
        then slow.ramp - elapsed
        else duration_from_nanos (div_ceil (cost * slow.ramp) max_per_window) - elapsed)

unfoldable pub retry_after_for_cost_u64 : ℕ → SlowStart → Duration → Duration → ℕ → Duration
unfolding duration_from_nanos
retry_after_for_cost_u64 capacity slow started_at now cost =
    if slow.ramp == 0 || capacity == 0
    then 0
    else (let elapsed = now - started_at in
        if leb slow.ramp elapsed
        then 0
        else if ltb capacity cost
        then slow.ramp - elapsed
        else duration_from_nanos (div_ceil (mul_u128 cost slow.ramp) capacity) - elapsed)
