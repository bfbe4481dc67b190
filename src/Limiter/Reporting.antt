-- ===== src/Limiter/Reporting.antt =====
-- What the observer of src/limiter.rs hears of an attempt.
use shared_rate_limiter.Base.{
  nat_eq, ◌≡◌, refl, ◌∙◌, Result, ok, err, ◌∷◌, arith, Option-cases, inl, inr,
}
use shared_rate_limiter.Types.{Key, Duration, Permit, Deny}
use shared_rate_limiter.Cost.{Cost}
use shared_rate_limiter.Config.{AlgorithmConfig}
use shared_rate_limiter.Observer.{DenyReason, on_deny}
use shared_rate_limiter.Bucket.{BucketDeny, remaining_block}
use shared_rate_limiter.Limiter.State.{RateLimiter, resolve_bucket_key, deny_to}
use shared_rate_limiter.Limiter.Ramp.{effective_algorithm, slow_start_pre_deny}
use shared_rate_limiter.Limiter.Keys.{ensure_bucket_capacity, bucket_entry, put_bucket}
use shared_rate_limiter.Limiter.Eviction.{ensure-cases}
use shared_rate_limiter.Limiter.Acquire.{deny_reason, report, reserve_in_bucket, try_acquire}

-- The observer heard of `deny` with a reason, or of nothing if there is no denial.
abbrev pub Heard {ℓ} :
    {A : Type ℓ} → RateLimiter → Key → Cost → Duration → Result A Deny × RateLimiter → Type 0
Heard rl route_key cost now (ok _, rl') = rl'.observer ≡ rl.observer
Heard rl route_key cost now (err deny, rl') =
    (reason : DenyReason) × (rl'.observer
      ≡ on_deny (record {
        route_key = route_key;
        bucket_key = resolve_bucket_key rl route_key;
        cost = cost;
        now = now;
        deny = deny;
        reason = reason;
      })
        ∷ rl.observer)

ensure-Heard :
    (rl : RateLimiter) (route_key : Key) (cost : Cost) (now : Duration)
    → Heard rl route_key cost now
        (ensure_bucket_capacity rl route_key (resolve_bucket_key rl route_key) cost now)
unfolding deny_to
ensure-Heard rl route_key cost now =
    ensure-cases (Heard rl route_key cost now) rl route_key (resolve_bucket_key rl route_key) cost
      now (λ there. refl) (λ free. refl) (λ n e room. refl)
      (λ n e full. (DenyReason.key_cardinality_bound, refl))
      λ n old rest idx e full idle taken. refl

entry-observer :
    (rl : RateLimiter) (k : Key) (now : Duration) → (bucket_entry rl k now).1.observer ≡ rl.observer
unfolding bucket_entry
entry-observer rl k now = ground arith

report-Heard :
    (rl rl' : RateLimiter) (route_key : Key) (cost : Cost) (now : Duration)
    (res : Result Permit BucketDeny)
    → rl'.observer ≡ rl.observer
    → Heard rl route_key cost now
        (report rl' route_key (resolve_bucket_key rl route_key) cost now res)
unfolding report deny_to
report-Heard rl rl' route_key cost now (ok p) e = e
report-Heard rl rl' route_key cost now (err d) e = (deny_reason d.reason, rw e refl)

reserve-Heard :
    (rl rl' : RateLimiter) (route_key : Key) (eff : AlgorithmConfig) (cost : Cost) (now : Duration)
    → rl'.observer ≡ rl.observer
    → Heard rl route_key cost now
        (reserve_in_bucket rl' route_key (resolve_bucket_key rl route_key) eff cost now)
unfolding reserve_in_bucket put_bucket
reserve-Heard rl rl' route_key eff cost now e =
    report-Heard rl _ route_key cost now _
      (entry-observer rl' (resolve_bucket_key rl route_key) now ∙ e)

admit-Heard :
    (rl : RateLimiter) (room : Result (Unit {0}) Deny × RateLimiter) (route_key : Key)
    (eff : AlgorithmConfig) (cost : Cost) (now : Duration)
    → Heard rl route_key cost now room
    → Heard rl route_key cost now (elim room.0 as (λ _. Result Permit Deny × RateLimiter) [
      | err deny ↦ (err deny, room.1)
      | ok _ ↦ reserve_in_bucket room.1 route_key (resolve_bucket_key rl route_key) eff cost now
    ])
admit-Heard rl (err deny, rl') route_key eff cost now h = h
admit-Heard rl (ok _, rl') route_key eff cost now h = reserve-Heard rl rl' route_key eff cost now h

-- An attempt that is denied calls the observer exactly once, with the denial that the caller gets,
-- the route, the bucket key that it resolves to, the cost and the time; one that is granted calls
-- it not at all. This is so whichever check denies, and whether or not a key is evicted.
pub try_acquire-Heard :
    (rl : RateLimiter) (route_key : Key) (cost : Cost) (now : Duration)
    → Heard rl route_key cost now (try_acquire rl route_key cost now)
unfolding try_acquire deny_to
try_acquire-Heard rl route_key cost now =
    let k = resolve_bucket_key rl route_key in
    let eff = effective_algorithm rl now in
    elim (Option-cases (remaining_block rl.global_blocked_until now)) [
      | inr (wait, e) ↦ rw (e, try_acquire) (DenyReason.feedback_backoff, refl)
      | inl unblocked ↦ elim (Option-cases (slow_start_pre_deny rl cost now eff)) [
        | inr (wait, e) ↦ rw (unblocked, e, try_acquire) (DenyReason.slow_start, refl)
        | inl allowed ↦
            rw (unblocked, allowed, try_acquire)
              (admit-Heard rl (ensure_bucket_capacity rl route_key k cost now) route_key eff cost
                now (ensure-Heard rl route_key cost now))
      ]
    ]
