-- ===== src/TokenBucket/Refund.antt =====
-- Refunds and changes of the capacity of src/token_bucket.rs.
use shared_rate_limiter.Base.{ℕ, ◌+◌, ◌-◌, ◌≤◌, ◌<◌, ◌≡◌, ok, arith, min}
use shared_rate_limiter.Word.{u64_max}
use shared_rate_limiter.Types.{Duration}
use shared_rate_limiter.Cost.{Cost, get, IsCost}
use shared_rate_limiter.TokenBucket.{
  TokenBucketState, refill, try_reserve, refund, apply_capacity_change,
}
use shared_rate_limiter.TokenBucket.Bounds.{IsWithin, refill-IsWithin}

-- A reservation that a pool within its capacity grants, and that is refunded at the same time, leaves
-- the pool as the refill alone would, with every credit back, where capacity and costs fit a `u64`.
pub refund-try_reserve :
    (s : TokenBucketState) (capacity rate : ℕ) (cost : Cost) (now : Duration)
    → IsWithin capacity s
    → capacity ≤ u64_max
    → s.in_flight + get cost ≤ u64_max
    → (try_reserve s capacity rate cost now).0 ≡ ok tt
    → refund (try_reserve s capacity rate cost now).1 capacity cost now rate
      ≡ refill s capacity rate now
unfolding refund try_reserve
refund-try_reserve s capacity rate cost now within bound room granted =
    ground (arith, refill-IsWithin s capacity rate now within)

-- Where the sum of the credits and the cost passes `u64::MAX`, the addition of a release build
-- wraps, and a refund at the time of the last update leaves fewer credits than it was to give back.
pub refund-wraps :
    (s : TokenBucketState) (capacity rate : ℕ) (cost : Cost)
    → s.credits ≤ u64_max
    → IsCost cost
    → u64_max < s.credits + get cost
    → (refund s capacity cost s.last_update rate).credits < get cost
unfolding refund
refund-wraps s capacity rate cost bound valid wraps = ground arith

-- A change to a capacity that fits a `u64` adds what a larger one has more to the credits of a pool within the old
-- capacity, and a smaller one cuts them to itself; what is in flight stays.
apply_capacity_change_lem :
    (s : TokenBucketState) (old_capacity new_capacity : ℕ)
    → IsWithin old_capacity s
    → new_capacity ≤ u64_max
    → apply_capacity_change s old_capacity new_capacity
      ≡ record s { credits = min (s.credits + (new_capacity - old_capacity)) new_capacity }
unfolding apply_capacity_change
apply_capacity_change_lem s old_capacity new_capacity within bound = ground arith
