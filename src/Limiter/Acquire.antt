-- ===== src/Limiter/Acquire.antt =====
-- src/limiter.rs: `try_acquire`, with its early returns as branches.
use shared_rate_limiter.Base.{nat_eq, none, some, Result, ok, err}
use shared_rate_limiter.Types.{Key, Duration, Permit, Deny}
use shared_rate_limiter.Cost.{Cost}
use shared_rate_limiter.Config.{AlgorithmConfig}
use shared_rate_limiter.Observer.{DenyReason}
use shared_rate_limiter.Bucket
use shared_rate_limiter.Bucket.{BucketState, BucketDeny, BucketDenyReason, remaining_block}
use shared_rate_limiter.Limiter.State.{RateLimiter, resolve_bucket_key, deny_to}
use shared_rate_limiter.Limiter.Ramp.{effective_algorithm, slow_start_pre_deny}
use shared_rate_limiter.Limiter.Keys.{ensure_bucket_capacity, bucket_entry, put_bucket}

unfoldable pub deny_reason : BucketDenyReason → DenyReason
deny_reason BucketDenyReason.blocked_until = DenyReason.feedback_backoff
deny_reason BucketDenyReason.window_exhausted = DenyReason.window_exhausted
deny_reason BucketDenyReason.disabled = DenyReason.disabled
deny_reason BucketDenyReason.unachievable = DenyReason.disabled

-- The end of `try_acquire`: the denial of the bucket goes to the observer.
unfoldable pub report :
    RateLimiter
    → Key
    → Key
    → Cost
    → Duration
    → Result Permit BucketDeny
    → Result Permit Deny × RateLimiter
unfolding deny_to deny_reason
report rl route_key bucket_key cost now (ok p) = (ok p, rl)
report rl route_key bucket_key cost now (err d) =
    let (deny, rl') =
      deny_to rl route_key bucket_key cost now d.deny.retry_after (deny_reason d.reason) in
    (err deny, rl')

-- `try_acquire` behind the check of the key bound.
unfoldable pub reserve_in_bucket :
    RateLimiter → Key → Key → AlgorithmConfig → Cost → Duration → Result Permit Deny × RateLimiter
unfolding bucket_entry put_bucket report Bucket.try_reserve
reserve_in_bucket rl route_key bucket_key effective_algo cost now =
    let (b, rl') = bucket_entry rl bucket_key now in
    let (res, b') = Bucket.try_reserve b bucket_key effective_algo cost now in
    report (put_bucket rl' bucket_key b') route_key bucket_key cost now res

unfoldable pub try_acquire : RateLimiter → Key → Cost → Duration → Result Permit Deny × RateLimiter
unfolding resolve_bucket_key remaining_block deny_to effective_algorithm slow_start_pre_deny
    ensure_bucket_capacity reserve_in_bucket
try_acquire rl route_key cost now =
    let bucket_key = resolve_bucket_key rl route_key in
    elim (remaining_block rl.global_blocked_until now) [
      | some wait ↦
          let (deny, rl') =
            deny_to rl route_key bucket_key cost now wait DenyReason.feedback_backoff in
          (err deny, rl')
      | none ↦
          let effective_algo = effective_algorithm rl now in
          elim (slow_start_pre_deny rl cost now effective_algo) [
            | some wait ↦
                let (deny, rl') =
                  deny_to rl route_key bucket_key cost now wait DenyReason.slow_start in
                (err deny, rl')
            | none ↦
                let (room, rl') = ensure_bucket_capacity rl route_key bucket_key cost now in
                elim room [
                  | err deny ↦ (err deny, rl')
                  | ok _ ↦ reserve_in_bucket rl' route_key bucket_key effective_algo cost now
                ]
          ]
    ]
