-- ===== src/TokenBucket.antt =====
-- src/token_bucket.rs: a pool of credits that refills with time. A method with `&mut self` returns
-- the new state, behind its result where it has one. Arithmetic is that of a release build.
pub mod Bounds
pub mod Retry
pub mod Refund
pub mod Polling
pub mod Throughput
use shared_rate_limiter.Base.{
  ℕ, ◌+◌, ◌-◌, ◌/◌, ◌%◌, ◌*◌, min, Bool, not, if◌then◌else◌, leb, ltb, ◌==◌, ◌||◌, Result, ok, err,
}
use shared_rate_limiter.Word.{
  u64_max, duration_max, nanos_per_sec, add_u64, wrapping_add_u64, mul_u128, div_ceil,
}
use shared_rate_limiter.Types.{Duration, Deny}
use shared_rate_limiter.Cost.{Cost, get}

pub record TokenBucketState : Type 0 where
  pub last_update : Duration
  pub credits : ℕ
  pub in_flight : ℕ

unfoldable pub new : Duration → ℕ → TokenBucketState
new now capacity = record { last_update = now; credits = capacity; in_flight = 0 }

unfoldable pub has_outstanding : TokenBucketState → Bool
has_outstanding s = not (s.in_flight == 0)

unfoldable pub credits_added : Duration → ℕ → ℕ
credits_added delta refill_per_sec = min (mul_u128 delta refill_per_sec / nanos_per_sec) u64_max

unfoldable pub retry_after_for_deficit : ℕ → ℕ → Duration
retry_after_for_deficit deficit refill_per_sec =
    let nanos = div_ceil (mul_u128 deficit nanos_per_sec) refill_per_sec in
    let secs = nanos / nanos_per_sec in
    (secs % (u64_max + 1)) * nanos_per_sec + nanos % nanos_per_sec

unfoldable pub refill : TokenBucketState → ℕ → ℕ → Duration → TokenBucketState
refill s capacity refill_per_sec now =
    if leb now s.last_update
    then s
    else if refill_per_sec == 0 || capacity == 0
    then record s { last_update = now; credits = min s.credits capacity }
    else record s {
      last_update = now;
      credits =
          min (add_u64 s.credits (credits_added (now - s.last_update) refill_per_sec)) capacity;
    }

-- `try_reserve` behind its first line.
unfoldable pub reserve_refilled :
    TokenBucketState → ℕ → ℕ → Cost → Result (Unit {0}) Deny × TokenBucketState
reserve_refilled s capacity refill_per_sec cost =
    let want = get cost in
    if want == 0
    then (ok tt, s)
    else if ltb capacity want
    then (err (record { retry_after = duration_max }), s)
    else if leb want s.credits
    then (ok tt, record s { credits = s.credits - want; in_flight = add_u64 s.in_flight want })
    else if refill_per_sec == 0
    then (err (record { retry_after = duration_max }), s)
    else (
      err (record { retry_after = retry_after_for_deficit (want - s.credits) refill_per_sec }),
      s,
    )

unfoldable pub try_reserve :
    TokenBucketState → ℕ → ℕ → Cost → Duration → Result (Unit {0}) Deny × TokenBucketState
unfolding refill reserve_refilled
try_reserve s capacity refill_per_sec cost now =
    reserve_refilled (refill s capacity refill_per_sec now) capacity refill_per_sec cost

-- `self.credits + amt` is a plain addition of `u64`.
unfoldable pub refund : TokenBucketState → ℕ → Cost → Duration → ℕ → TokenBucketState
unfolding refill
refund s capacity cost now refill_per_sec =
    let s' = refill s capacity refill_per_sec now in
    record s' {
      in_flight = s'.in_flight - get cost;
      credits = min (wrapping_add_u64 s'.credits (get cost)) capacity;
    }

unfoldable pub commit : TokenBucketState → Cost → TokenBucketState
commit s cost = record s { in_flight = s.in_flight - get cost }

unfoldable pub apply_capacity_change : TokenBucketState → ℕ → ℕ → TokenBucketState
apply_capacity_change s old_capacity new_capacity =
    if leb old_capacity new_capacity
    then record s { credits = min (add_u64 s.credits (new_capacity - old_capacity)) new_capacity }
    else record s { credits = min s.credits new_capacity }
