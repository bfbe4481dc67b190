-- ===== src/Limiter/Throttling.antt =====
-- The backoff of one key in src/limiter.rs.
use shared_rate_limiter.Base.{
  nat_eq, ◌≤◌, ◌<◌, ◌≡◌, refl, sym, ap, ◌∙◌, inl, inr, max, subst, Option, none, some, Option-cases,
  Result, ok, err, arith,
}
use shared_rate_limiter.Word.{add_duration}
use shared_rate_limiter.Types.{Key, Duration, Permit, Deny, rate_limited_feedback, Scope}
use shared_rate_limiter.Cost.{Cost}
use shared_rate_limiter.Config.{AlgorithmConfig}
use shared_rate_limiter.HashMap
use shared_rate_limiter.HashMap.Laws.{lookup-insert_self, contains_of_some}
use shared_rate_limiter.Bucket
use shared_rate_limiter.Bucket.{
  BucketState, BucketDeny, BucketDenyReason, remaining_block, clear_expired_block,
  block_on_feedback, apply_blocked_until,
}
use shared_rate_limiter.Bucket.Backoff.{ends, blocked_reserve}
use shared_rate_limiter.Limiter.State.{RateLimiter, resolve_bucket_key, deny_to}
use shared_rate_limiter.Limiter.Ramp.{effective_algorithm, slow_start_pre_deny}
use shared_rate_limiter.Limiter.Keys.{ensure_bucket_capacity, bucket_entry, put_bucket, with_bucket}
use shared_rate_limiter.Limiter.Acquire.{report, reserve_in_bucket, try_acquire}
use shared_rate_limiter.Limiter.Finalize.{block_on_global, commit}

abbrev pub Denied : Result Permit Deny → Type 0
Denied r = (d : Deny) × (r ≡ err d)

reserve-Denied :
    (rl : RateLimiter) (route_key k : Key) (b : BucketState) (eff : AlgorithmConfig) (cost : Cost)
    (now : Duration)
    → HashMap.lookup k rl.buckets ≡ some b
    → now < ends b.blocked
    → Denied (reserve_in_bucket rl route_key k eff cost now).0
unfolding reserve_in_bucket bucket_entry report deny_to
reserve-Denied rl route_key k b eff cost now there h =
    let (d, wait, e) = blocked_reserve b k eff cost now h in
    let entry : bucket_entry rl k now ≡ (b, rl) = rw (there, bucket_entry) refl in
    (
      d.deny,
      subst
          (λ r.
            (report (put_bucket r.1 k (Bucket.try_reserve r.0 k eff cost now).1) route_key k cost
              now (Bucket.try_reserve r.0 k eff cost now).0).0
            ≡ err d.deny)
          (sym entry) (rw e refl),
    )

-- A bucket that is there needs no room.
pub present_lem :
    (rl : RateLimiter) (route_key k : Key) (b : BucketState) (cost : Cost) (now : Duration)
    → HashMap.lookup k rl.buckets ≡ some b
    → ensure_bucket_capacity rl route_key k cost now ≡ (ok tt, rl)
unfolding ensure_bucket_capacity
present_lem rl route_key k b cost now there =
    rw (contains_of_some k rl.buckets b there, ensure_bucket_capacity) refl

-- An attempt on a route whose bucket is under a backoff.
pub try_acquire-Denied :
    (rl : RateLimiter) (route_key : Key) (b : BucketState) (cost : Cost) (now : Duration)
    → HashMap.lookup (resolve_bucket_key rl route_key) rl.buckets ≡ some b
    → now < ends b.blocked
    → Denied (try_acquire rl route_key cost now).0
unfolding try_acquire deny_to
try_acquire-Denied rl route_key b cost now there h =
    let k = resolve_bucket_key rl route_key in
    let eff = effective_algorithm rl now in
    elim (Option-cases (remaining_block rl.global_blocked_until now)) [
      | inr (wait, e) ↦ rw (e, try_acquire) (_, refl)
      | inl unblocked ↦ elim (Option-cases (slow_start_pre_deny rl cost now eff)) [
        | inr (wait, e) ↦ rw (unblocked, e, try_acquire) (_, refl)
        | inl passes ↦
            rw (unblocked, passes, try_acquire)
              (subst
                (λ room.
                  Denied
                    (elim room.0 as (λ _. Result Permit Deny × RateLimiter) [
                      | err deny ↦ (err deny, room.1)
                      | ok _ ↦ reserve_in_bucket room.1 route_key k eff cost now
                    ]).0)
                (sym (present_lem rl route_key k b cost now there))
                (reserve-Denied rl route_key k b eff cost now there h))
      ]
    ]

-- After a commit with a feedback for the permit's key.
pub committed_ends :
    (b : BucketState) (p : Permit) (retry_after : Duration) (hint : Option Key) (now : Duration)
    (algo : AlgorithmConfig)
    → add_duration now retry_after
      ≤ ends (Bucket.commit b p (rate_limited_feedback retry_after Scope.key hint) now algo).blocked
unfolding Bucket.commit block_on_feedback apply_blocked_until
committed_ends b p retry_after hint now algo = go (clear_expired_block b now).blocked
  where
    go :
        (o : Option Duration)
        → add_duration now retry_after ≤ elim o [
          | none ↦ add_duration now retry_after
          | some cur ↦ max cur (add_duration now retry_after)
        ]
    go none = omega arith
    go (some cur) = omega arith

-- Where the bucket is there, it has the backoff.
pub committed_bucket :
    (rl : RateLimiter) (p : Permit) (b : BucketState) (retry_after : Duration) (hint : Option Key)
    (now : Duration)
    → HashMap.lookup p.key rl.buckets ≡ some b
    → (b' : BucketState) × (HashMap.lookup p.key
          (commit rl p (rate_limited_feedback retry_after Scope.key hint) now).buckets
        ≡ some b')
      × (add_duration now retry_after ≤ ends b'.blocked)
unfolding commit block_on_global with_bucket put_bucket
committed_bucket rl p b retry_after hint now there =
    let outcome = rate_limited_feedback retry_after Scope.key hint in
    let b' = Bucket.commit b p outcome now rl.cfg.algorithm in
    let is : commit rl p outcome now ≡ put_bucket rl p.key b' = rw (there, with_bucket) refl in
    (
      b',
      ap (λ r. HashMap.lookup p.key r.buckets) is ∙ lookup-insert_self p.key b' rl.buckets,
      committed_ends b p retry_after hint now rl.cfg.algorithm,
    )

-- After a commit that reports a rate limit for its key, where the key has a bucket, every attempt on a
-- route of that bucket before the end of the backoff is denied, at any cost, with or without a bound
-- on the keys.
commit-Denied :
    (rl : RateLimiter) (p : Permit) (b : BucketState) (retry_after : Duration) (hint : Option Key)
    (route_key : Key) (cost : Cost) (now later : Duration)
    → HashMap.lookup p.key rl.buckets ≡ some b
    → resolve_bucket_key
        (commit rl p (rate_limited_feedback retry_after Scope.key hint) now)
        route_key
      ≡ p.key
    → later < add_duration now retry_after
    → Denied
        (try_acquire
          (commit rl p (rate_limited_feedback retry_after Scope.key hint) now)
          route_key
          cost
          later).0
commit-Denied rl p b retry_after hint route_key cost now later there routed early =
    let rl' = commit rl p (rate_limited_feedback retry_after Scope.key hint) now in
    let (b', found, long) = committed_bucket rl p b retry_after hint now there in
    try_acquire-Denied rl' route_key b' cost later
      (ap (λ k. HashMap.lookup k rl'.buckets) routed ∙ found) (omega (arith, early, long))
