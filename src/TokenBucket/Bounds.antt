-- ===== src/TokenBucket/Bounds.antt =====
-- The pool of src/token_bucket.rs: its capacity, and what a refill and a reservation move.
use native.Mathlib.Nat.{mul-le-mul_right}
use shared_rate_limiter.Base.{ℕ, ◌+◌, ◌-◌, ◌*◌, ◌/◌, ◌≤◌, ◌≡◌, arith, if◌then◌else◌, is_err}
use shared_rate_limiter.Word.{nanos_per_sec}
use shared_rate_limiter.Types.{Duration}
use shared_rate_limiter.Cost.{Cost, get}
use shared_rate_limiter.TokenBucket.{TokenBucketState, credits_added, refill, reserve_refilled}

-- What a pool of a capacity keeps.
pub record IsWithin (capacity : ℕ) (s : TokenBucketState) : Type 0 where
  pub held : s.credits ≤ capacity

-- `floor(rate * delta / 1e9)`, with the bounds of `u128` and `u64`.
pub credits_added-le : (delta rate : ℕ) → credits_added delta rate ≤ delta * rate / nanos_per_sec
unfolding credits_added
credits_added-le delta rate = omega arith

pub refill-IsWithin :
    (s : TokenBucketState) (capacity rate : ℕ) (now : Duration)
    → IsWithin capacity s
    → IsWithin capacity (refill s capacity rate now)
unfolding refill
refill-IsWithin s capacity rate now h = ground arith

pub refill-last_update :
    (s : TokenBucketState) (capacity rate : ℕ) (now : Duration)
    → s.last_update ≤ now
    → (refill s capacity rate now).last_update ≡ now
unfolding refill
refill-last_update s capacity rate now h = ground arith

-- A refill spends the time since the last update once, at the rate.
pub refill_pays :
    (s : TokenBucketState) (capacity rate : ℕ) (now : Duration)
    → let s' = refill s capacity rate now in
      (s.last_update ≤ s'.last_update)
      × (s'.credits ≤ s.credits + (s'.last_update - s.last_update) * rate / nanos_per_sec)
unfolding refill
refill_pays s capacity rate now = ground (arith, credits_added-le (now - s.last_update) rate)

-- What a reservation grants leaves the pool.
pub reserve_refilled_pays :
    (s : TokenBucketState) (capacity rate : ℕ) (c : Cost)
    → let (result, s') = reserve_refilled s capacity rate c in
      s'.credits + (if is_err result then 0 else get c) ≤ s.credits
unfolding reserve_refilled
reserve_refilled_pays s capacity rate c = ground arith

pub reserve_refilled-last_update :
    (s : TokenBucketState) (capacity rate : ℕ) (c : Cost)
    → (reserve_refilled s capacity rate c).1.last_update ≡ s.last_update
unfolding reserve_refilled
reserve_refilled-last_update s capacity rate c = ground arith

-- Two stretches of time pay for no more than one.
pub floor_add :
    (i j k rate : ℕ)
    → i ≤ j
    → j ≤ k
    → (j - i) * rate / nanos_per_sec + (k - j) * rate / nanos_per_sec
      ≤ (k - i) * rate / nanos_per_sec
floor_add i j k rate h g = let e : k - i ≡ (j - i) + (k - j) = omega arith in rw e (omega arith)

pub floor_mono : (x y rate : ℕ) → x ≤ y → x * rate / nanos_per_sec ≤ y * rate / nanos_per_sec
floor_mono x y rate h = omega (arith, mul-le-mul_right {m = x} {n = y} rate h)

pub refill-last_update-le :
    (s : TokenBucketState) (capacity rate : ℕ) {now t : Duration}
    → s.last_update ≤ t
    → now ≤ t
    → (refill s capacity rate now).last_update ≤ t
unfolding refill
refill-last_update-le s capacity rate h g = ground arith
