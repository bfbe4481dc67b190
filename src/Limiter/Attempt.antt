-- ===== src/Limiter/Attempt.antt =====
-- What `try_acquire` of src/limiter.rs does to the accounts of the buckets.
use shared_rate_limiter.Base.{
  ◌+◌, ◌≤◌, ◌≡◌, ◌≢◌, refl, inl, inr, Option, none, some, Result, ok, err, List, arith, nat_eq,
  Option-cases,
}
use shared_rate_limiter.Word.{u64_max}
use shared_rate_limiter.Types.{Key, Duration, Permit, Deny}
use shared_rate_limiter.Cost.{Cost, get, IsCost}
use shared_rate_limiter.Config.{AlgorithmConfig, IsAlgorithm, SlowStart}
use shared_rate_limiter.SlowStart.Ramp.{effective_max-le}
use shared_rate_limiter.Observer.{DenyReason}
use shared_rate_limiter.Bucket
use shared_rate_limiter.Bucket.{
  BucketState, AlgoState, BucketDeny, reserve_algo, reserve_window, token_result, remaining_block,
  clear_expired_block,
}
use shared_rate_limiter.Bucket.Ledger.{total, Scales, add_permit, try_reserve-Booked}
use shared_rate_limiter.Limiter.State.{RateLimiter, resolve_bucket_key}
use shared_rate_limiter.Limiter.Keys.{ensure_bucket_capacity, bucket_entry, put_bucket}
use shared_rate_limiter.Limiter.Ramp.{scaled, effective_algorithm, slow_start_pre_deny}
use shared_rate_limiter.Limiter.Acquire.{report, reserve_in_bucket, try_acquire}
use shared_rate_limiter.Limiter.Ledger.{held, total-held-le}
use shared_rate_limiter.Limiter.Booking.{
  IsBooked, deny_to-IsBooked, ensure-Keeps, bucket_entry-EntryBooked, put-IsBooked,
}

-- A permit that a bucket grants carries the bucket's key.
abbrev Keyed {ℓ} : {E : Type ℓ} → Key → Result Permit E → Type 0
Keyed k (ok p) = p.key ≡ k
Keyed k (err e) = Unit

reserve_algo-Keyed :
    (state : AlgoState) (k : Key) (algo : AlgorithmConfig) (cost : Cost) (now : Duration)
    → Keyed k (reserve_algo state k algo cost now).0
unfolding reserve_algo
reserve_algo-Keyed (AlgoState.fixed_window s) k (AlgorithmConfig.fixed_window max window) cost now =
    ground arith
reserve_algo-Keyed (AlgoState.token_bucket s) k (AlgorithmConfig.token_bucket capacity rate) cost
      now =
    ground arith
reserve_algo-Keyed state k _ cost now = tt

try_reserve-Keyed :
    (b : BucketState) (k : Key) (algo : AlgorithmConfig) (cost : Cost) (now : Duration)
    → Keyed k (Bucket.try_reserve b k algo cost now).0
unfolding Bucket.try_reserve
try_reserve-Keyed b k algo cost now =
    elim (Option-cases (remaining_block (clear_expired_block b now).blocked now)) [
      | inl open_bucket ↦ rw open_bucket (reserve_algo-Keyed b.algo k algo cost now)
      | inr (wait, e) ↦ rw e tt
    ]

held-add_permit :
    (k : Key) (res : Result Permit BucketDeny) (ps : List Permit)
    → Keyed k res
    → held k (add_permit res ps) ≡ add_permit res (held k ps)
held-add_permit k (ok p) ps h = ground (arith, h)
held-add_permit k (err e) ps h = refl

held-add_permit_ne :
    (k j : Key) (res : Result Permit BucketDeny) (ps : List Permit)
    → Keyed k res
    → k ≢ j
    → held j (add_permit res ps) ≡ held j ps
held-add_permit_ne k j (ok p) ps h apart = ground (arith, h)
held-add_permit_ne k j (err e) ps h apart = refl

report-IsBooked :
    (rl : RateLimiter) (route_key bucket_key : Key) (cost : Cost) (now : Duration)
    (res : Result Permit BucketDeny) (ps : List Permit)
    → IsBooked rl (add_permit res ps)
    → let (res', rl') = report rl route_key bucket_key cost now res in
      IsBooked rl' (add_permit res' ps)
unfolding report
report-IsBooked rl route_key bucket_key cost now (ok p) ps h = h
report-IsBooked rl route_key bucket_key cost now (err d) ps h = record {
  algorithm = h.algorithm;
  accounts = h.accounts;
}

reserve_in_bucket-IsBooked :
    (rl : RateLimiter) (route_key bucket_key : Key) (eff : AlgorithmConfig) (cost : Cost)
    (now : Duration) (ps : List Permit)
    → Scales rl.cfg.algorithm eff
    → IsCost cost
    → total ps + get cost ≤ u64_max
    → IsBooked rl ps
    → let (res, rl') = reserve_in_bucket rl route_key bucket_key eff cost now in
      IsBooked rl' (add_permit res ps)
unfolding reserve_in_bucket
reserve_in_bucket-IsBooked rl route_key k eff cost now ps sc valid fits h =
    let r = bucket_entry rl k now in
    let en = bucket_entry-EntryBooked rl k now ps h in
    let out = Bucket.try_reserve r.0 k eff cost now in
    let keyed = try_reserve-Keyed r.0 k eff cost now in
    let tried =
      try_reserve-Booked rl.cfg.algorithm eff r.0 k cost now (held k ps) sc valid
        (omega (arith, total-held-le k ps)) en.bucket in
    report-IsBooked (put_bucket r.1 k out.1) route_key k cost now out.0 ps (
      put-IsBooked r.1 k out.1 ps (add_permit out.0 ps) en.booked
        (rw (en.same, held-add_permit k out.0 ps keyed) tried)
        (λ j apart. held-add_permit_ne k j out.0 ps keyed apart))

-- Slow start changes the amounts alone.
effective-Scales :
    (rl : RateLimiter) (now : Duration) (algo : AlgorithmConfig) (slow : Option SlowStart)
    → IsAlgorithm algo
    → Scales algo (scaled slow algo rl.started_at now)
unfolding scaled
effective-Scales rl now (AlgorithmConfig.fixed_window max window) none h = (h.0, refl)
effective-Scales rl now (AlgorithmConfig.token_bucket capacity rate) none h = tt
effective-Scales rl now (AlgorithmConfig.fixed_window max window) (some slow) h =
    (omega (arith, h.0, effective_max-le max slow rl.started_at now), refl)
effective-Scales rl now (AlgorithmConfig.token_bucket capacity rate) (some slow) h = tt

admit-IsBooked :
    (rl : RateLimiter) (room : Result (Unit {0}) Deny) (route_key bucket_key : Key)
    (eff : AlgorithmConfig) (cost : Cost) (now : Duration) (ps : List Permit)
    → Scales rl.cfg.algorithm eff
    → IsCost cost
    → total ps + get cost ≤ u64_max
    → IsBooked rl ps
    → let (res, rl') : Result Permit Deny × RateLimiter = elim room [
      | err deny ↦ (err deny, rl)
      | ok _ ↦ reserve_in_bucket rl route_key bucket_key eff cost now
    ] in
      IsBooked rl' (add_permit res ps)
admit-IsBooked rl (ok _) route_key k eff cost now ps sc valid fits h =
    reserve_in_bucket-IsBooked rl route_key k eff cost now ps sc valid fits h
admit-IsBooked rl (err deny) route_key k eff cost now ps sc valid fits h = h

-- An attempt keeps the books, with the permit that it grants among the outstanding ones.
pub try_acquire-IsBooked :
    (rl : RateLimiter) (route_key : Key) (cost : Cost) (now : Duration) (ps : List Permit)
    → IsCost cost
    → total ps + get cost ≤ u64_max
    → IsBooked rl ps
    → let (res, rl') = try_acquire rl route_key cost now in IsBooked rl' (add_permit res ps)
unfolding try_acquire
try_acquire-IsBooked rl route_key cost now ps valid fits h =
    let k = resolve_bucket_key rl route_key in
    let eff = effective_algorithm rl now in
    elim (Option-cases (remaining_block rl.global_blocked_until now)) [
      | inr (wait, e) ↦
          rw (e, try_acquire)
            (deny_to-IsBooked rl ps route_key k cost now wait DenyReason.feedback_backoff h)
      | inl unblocked ↦ elim (Option-cases (slow_start_pre_deny rl cost now eff)) [
        | inr (wait, e) ↦
            rw (unblocked, e, try_acquire)
              (deny_to-IsBooked rl ps route_key k cost now wait DenyReason.slow_start h)
        | inl allowed ↦
            let room = ensure_bucket_capacity rl route_key k cost now in
            let kept = ensure-Keeps rl ps route_key k cost now h in
            rw (unblocked, allowed, try_acquire)
              (admit-IsBooked room.1 room.0 route_key k eff cost now ps
                (rw kept.same
                  (effective-Scales rl now rl.cfg.algorithm rl.cfg.slow_start h.algorithm))
                valid fits kept.booked)
      ]
    ]
