-- ===== src/Limiter/Backoff.antt =====
-- The deadline of the backoff of all keys in src/limiter.rs, method by method.
use shared_rate_limiter.Base.{
  nat_eq, ◌≡◌, refl, ◌∙◌, max, none, some, Result, ok, err, arith, Option-cases, inl, inr,
}
use shared_rate_limiter.Types.{Key, Duration, Permit, Deny}
use shared_rate_limiter.Cost
use shared_rate_limiter.Cost.{Cost}
use shared_rate_limiter.Config.{AlgorithmConfig}
use shared_rate_limiter.HashMap
use shared_rate_limiter.Bucket
use shared_rate_limiter.Bucket.{BucketState, BucketDeny, remaining_block}
use shared_rate_limiter.Limiter.State.{RateLimiter, resolve_bucket_key, deny_to}
use shared_rate_limiter.Limiter.Ramp.{effective_algorithm, slow_start_pre_deny}
use shared_rate_limiter.Limiter.Keys.{ensure_bucket_capacity, bucket_entry, put_bucket, with_bucket}
use shared_rate_limiter.Limiter.Eviction.{Room, ensure-keeps}
use shared_rate_limiter.Limiter.Acquire.{report, reserve_in_bucket, try_acquire}
use shared_rate_limiter.Limiter.Feedback.{block_global, block_bucket}

-- Until when all keys are blocked, 0 if they are not.
abbrev pub blocked_to : RateLimiter → Duration
blocked_to rl = elim rl.global_blocked_until [ none ↦ 0 | some until ↦ until ]

entry-blocked_to :
    (rl : RateLimiter) (k : Key) (now : Duration)
    → blocked_to (bucket_entry rl k now).1 ≡ blocked_to rl
unfolding bucket_entry
entry-blocked_to rl k now = ground arith

ensure-blocked_to :
    (rl : RateLimiter) (route_key k : Key) (cost : Cost) (now : Duration)
    → blocked_to (ensure_bucket_capacity rl route_key k cost now).1 ≡ blocked_to rl
unfolding deny_to
ensure-blocked_to rl route_key k cost now =
    ensure-keeps (λ r. blocked_to r ≡ blocked_to rl) rl route_key k cost now refl refl
      λ old rest idx idle taken. refl

report-blocked_to :
    (rl : RateLimiter) (route_key k : Key) (cost : Cost) (now : Duration)
    (res : Result Permit BucketDeny)
    → blocked_to (report rl route_key k cost now res).1 ≡ blocked_to rl
unfolding report deny_to
report-blocked_to rl route_key k cost now (ok p) = refl
report-blocked_to rl route_key k cost now (err d) = refl

reserve-blocked_to :
    (rl : RateLimiter) (route_key k : Key) (eff : AlgorithmConfig) (cost : Cost) (now : Duration)
    → blocked_to (reserve_in_bucket rl route_key k eff cost now).1 ≡ blocked_to rl
unfolding reserve_in_bucket put_bucket
reserve-blocked_to rl route_key k eff cost now =
    let r = bucket_entry rl k now in
    let out = Bucket.try_reserve r.0 k eff cost now in
    report-blocked_to (put_bucket r.1 k out.1) route_key k cost now out.0
    ∙ entry-blocked_to rl k now

admit-blocked_to :
    (room : Room) (route_key k : Key) (eff : AlgorithmConfig) (cost : Cost) (now : Duration)
    → blocked_to
        (elim room.0 as (λ _. Result Permit Deny × RateLimiter) [
          | err deny ↦ (err deny, room.1)
          | ok _ ↦ reserve_in_bucket room.1 route_key k eff cost now
        ]).1
      ≡ blocked_to room.1
admit-blocked_to (err deny, rl) route_key k eff cost now = refl
admit-blocked_to (ok _, rl) route_key k eff cost now =
    reserve-blocked_to rl route_key k eff cost now

pub try_acquire-blocked_to :
    (rl : RateLimiter) (route_key : Key) (cost : Cost) (now : Duration)
    → blocked_to (try_acquire rl route_key cost now).1 ≡ blocked_to rl
unfolding try_acquire deny_to
try_acquire-blocked_to rl route_key cost now =
    let k = resolve_bucket_key rl route_key in
    let eff = effective_algorithm rl now in
    elim (Option-cases (remaining_block rl.global_blocked_until now)) [
      | inr (wait, e) ↦ rw (e, try_acquire) refl
      | inl unblocked ↦ elim (Option-cases (slow_start_pre_deny rl cost now eff)) [
        | inr (wait, e) ↦ rw (unblocked, e, try_acquire) refl
        | inl allowed ↦
            rw (unblocked, allowed, try_acquire)
              (admit-blocked_to (ensure_bucket_capacity rl route_key k cost now) route_key k eff
                  cost now
                ∙ ensure-blocked_to rl route_key k cost now)
      ]
    ]

pub block_global-blocked_to :
    (rl : RateLimiter) (until : Duration)
    → blocked_to (block_global rl until) ≡ max (blocked_to rl) until
unfolding block_global
block_global-blocked_to rl until = elim (Option-cases rl.global_blocked_until) [
  | inl e ↦ rw e (omega arith)
  | inr (t, e) ↦ rw e refl
]

pub with_bucket-blocked_to :
    (rl : RateLimiter) (k : Key) (f : BucketState → BucketState)
    → blocked_to (with_bucket rl k f) ≡ blocked_to rl
unfolding with_bucket put_bucket
with_bucket-blocked_to rl k f = elim (Option-cases (HashMap.lookup k rl.buckets)) [
  | inl e ↦ rw (e, with_bucket) refl
  | inr (b, e) ↦ rw (e, with_bucket) refl
]

pub block_bucket-blocked_to :
    (rl : RateLimiter) (route_key k : Key) (now until : Duration)
    → blocked_to (block_bucket rl route_key k now until) ≡ blocked_to rl
unfolding block_bucket put_bucket
block_bucket-blocked_to rl route_key k now until =
    go (ensure_bucket_capacity rl route_key k Cost.one now)
    ∙ ensure-blocked_to rl route_key k Cost.one now
  where
    go :
        (room : Room)
        → blocked_to (elim room.0 as (λ _. RateLimiter) [
          | err _ ↦ room.1
          | ok _ ↦
              let r = bucket_entry room.1 k now in
              put_bucket r.1 k (Bucket.apply_blocked_until r.0 until)
        ])
          ≡ blocked_to room.1
    go (err deny, rl') = refl
    go (ok _, rl') = entry-blocked_to rl' k now
