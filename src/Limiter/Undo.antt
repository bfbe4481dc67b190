-- ===== src/Limiter/Undo.antt =====
-- An attempt on src/limiter.rs that is refunded at once.
use shared_rate_limiter.Base.{
  nat_eq, ℕ, ◌≤◌, ◌≡◌, refl, sym, ap, subst, ◌∙◌, ok, err, none, some, Result, inl, inr, Option,
  Option-cases, arith,
}
use shared_rate_limiter.Word.{u32_max}
use shared_rate_limiter.Types.{Key, Duration, Permit, Deny}
use shared_rate_limiter.Cost.{Cost, IsCost}
use shared_rate_limiter.Config.{AlgorithmConfig, SlowStart}
use shared_rate_limiter.SlowStart.{effective_max}
use shared_rate_limiter.SlowStart.Ramp.{effective_max-le}
use shared_rate_limiter.HashMap
use shared_rate_limiter.HashMap.Laws.{lookup-insert_self, insert-insert}
use shared_rate_limiter.FixedWindow.{FixedWindowState, maybe_reset_window}
use shared_rate_limiter.Bucket
use shared_rate_limiter.Bucket.{BucketState, BucketDeny, AlgoState, remaining_block}
use shared_rate_limiter.Bucket.Undo.{refund-try_reserve_window}
use shared_rate_limiter.Limiter.State.{RateLimiter, resolve_bucket_key, deny_to}
use shared_rate_limiter.Limiter.Ramp.{scaled, effective_algorithm, slow_start_pre_deny}
use shared_rate_limiter.Limiter.Keys.{bucket_entry, put_bucket, with_bucket}
use shared_rate_limiter.Limiter.Acquire.{report, reserve_in_bucket, try_acquire}
use shared_rate_limiter.Limiter.Finalize.{refund}
use shared_rate_limiter.Limiter.Throttling.{present_lem}
use shared_rate_limiter.Limiter.Easing.{report-Reserves}

-- The effective algorithm of a window is a window of the same length, of at most the maximum.
scaled_window :
    (slow : Option SlowStart) (max window : ℕ) (started_at now : Duration)
    → (m : ℕ) × (scaled slow (AlgorithmConfig.fixed_window max window) started_at now
        ≡ AlgorithmConfig.fixed_window m window)
      × (m ≤ max)
unfolding scaled
scaled_window none max window started_at now = (max, refl, omega arith)
scaled_window (some slow) max window started_at now =
    (effective_max max slow started_at now, refl, effective_max-le max slow started_at now)

-- A grant in a bucket that is there writes it back, and nothing else.
reserve_granted :
    (rl : RateLimiter) (route_key k : Key) (b : BucketState) (eff : AlgorithmConfig) (cost : Cost)
    (now : Duration) {p : Permit}
    → HashMap.lookup k rl.buckets ≡ some b
    → (reserve_in_bucket rl route_key k eff cost now).0 ≡ ok p
    → ((Bucket.try_reserve b k eff cost now).0 ≡ ok p)
      × ((reserve_in_bucket rl route_key k eff cost now).1
          ≡ put_bucket rl k (Bucket.try_reserve b k eff cost now).1)
unfolding reserve_in_bucket bucket_entry
reserve_granted rl route_key k b eff cost now {p} there granted =
    let entry : bucket_entry rl k now ≡ (b, rl) = rw (there, bucket_entry) refl in
    let r = Bucket.try_reserve b k eff cost now in
    let is : reserve_in_bucket rl route_key k eff cost now
        ≡ report (put_bucket rl k r.1) route_key k cost now r.0 =
      ap
        (λ x.
          report (put_bucket x.1 k (Bucket.try_reserve x.0 k eff cost now).1) route_key k cost now
            (Bucket.try_reserve x.0 k eff cost now).0)
        entry in
    let (won, same) =
      report-Reserves (put_bucket rl k r.1) route_key k cost now r.0
        (sym (ap (λ x. x.0) is) ∙ granted) in
    (won, ap (λ x. x.1) is ∙ same)

try_acquire_granted :
    (rl : RateLimiter) (route_key : Key) (b : BucketState) (cost : Cost) (now : Duration)
    {p : Permit}
    → HashMap.lookup (resolve_bucket_key rl route_key) rl.buckets ≡ some b
    → (try_acquire rl route_key cost now).0 ≡ ok p
    → let k = resolve_bucket_key rl route_key in
      let r = Bucket.try_reserve b k (effective_algorithm rl now) cost now in
      (r.0 ≡ ok p) × ((try_acquire rl route_key cost now).1 ≡ put_bucket rl k r.1)
unfolding try_acquire deny_to
try_acquire_granted rl route_key b cost now {p} there granted =
    let k = resolve_bucket_key rl route_key in
    let eff = effective_algorithm rl now in
    elim (Option-cases (remaining_block rl.global_blocked_until now)) [
      | inr (wait, e) ↦ absurd (cc (rw (e, try_acquire) at granted))
      | inl unblocked ↦ elim (Option-cases (slow_start_pre_deny rl cost now eff)) [
        | inr (wait, e) ↦ absurd (cc (rw (unblocked, e, try_acquire) at granted))
        | inl passes ↦
            let is : try_acquire rl route_key cost now
                ≡ reserve_in_bucket rl route_key k eff cost now =
              rw (unblocked, passes, try_acquire)
                (ap
                  (λ room. elim room.0 as (λ _. Result Permit Deny × RateLimiter) [
                    | err deny ↦ (err deny, room.1)
                    | ok _ ↦ reserve_in_bucket room.1 route_key k eff cost now
                  ])
                  (present_lem rl route_key k b cost now there)) in
            let (won, left) =
              reserve_granted rl route_key k b eff cost now there
                (sym (ap (λ x. x.0) is) ∙ granted) in
            (won, ap (λ x. x.1) is ∙ left)
      ]
    ]

refund_put :
    (rl : RateLimiter) (k : Key) (b : BucketState) (p : Permit) (now : Duration)
    → p.key ≡ k
    → refund (put_bucket rl k b) p now ≡ put_bucket rl k (Bucket.refund b p now rl.cfg.algorithm)
unfolding refund with_bucket put_bucket
refund_put rl k b p now key =
    let f : BucketState → BucketState = (λ x. Bucket.refund x p now rl.cfg.algorithm) in
    subst (λ j. with_bucket (put_bucket rl k b) j f ≡ put_bucket rl k (f b)) (sym key)
      (rw (lookup-insert_self k b rl.buckets, with_bucket)
        (ap (λ m. record rl { buckets = m }) (insert-insert k b (f b) rl.buckets)))

-- Under a window of at most a `u32`, an attempt on a route whose bucket is there and counts a window, that
-- is granted and refunded at the same time, leaves the limiter as it was, but for what the time does to
-- this bucket: its backoff, which has ended, is cleared, and its window is the one of the time.
pub refund-try_acquire :
    (rl : RateLimiter) (b : BucketState) (s : FixedWindowState) (max window : ℕ) (route_key : Key)
    (cost : Cost) (now : Duration) {p : Permit}
    → rl.cfg.algorithm ≡ AlgorithmConfig.fixed_window max window
    → max ≤ u32_max
    → IsCost cost
    → HashMap.lookup (resolve_bucket_key rl route_key) rl.buckets ≡ some b
    → b.algo ≡ AlgoState.fixed_window s
    → (try_acquire rl route_key cost now).0 ≡ ok p
    → refund (try_acquire rl route_key cost now).1 p now
      ≡ put_bucket rl (resolve_bucket_key rl route_key) (record {
        blocked = none;
        algo = AlgoState.fixed_window (maybe_reset_window s now window);
      })
unfolding effective_algorithm
refund-try_acquire rl b s max window route_key cost now {p} algo fits valid there is granted =
    let k = resolve_bucket_key rl route_key in
    let (m, scales, le) = scaled_window rl.cfg.slow_start max window rl.started_at now in
    let (won, left) = try_acquire_granted rl route_key b cost now there granted in
    let eff : effective_algorithm rl now ≡ AlgorithmConfig.fixed_window m window =
      ap (λ a. scaled rl.cfg.slow_start a rl.started_at now) algo ∙ scales in
    let (back, key) =
      refund-try_reserve_window k max m window cost now (omega (arith, le, fits)) valid.nonzero b s
        is (subst (λ a. (Bucket.try_reserve b k a cost now).0 ≡ ok p) eff won) in
    let left' : (try_acquire rl route_key cost now).1
        ≡ put_bucket rl k
            (Bucket.try_reserve b k (AlgorithmConfig.fixed_window m window) cost now).1 =
      left ∙ ap (λ a. put_bucket rl k (Bucket.try_reserve b k a cost now).1) eff in
    ap (λ r. refund r p now) left'
    ∙ refund_put rl k _ p now key
    ∙ ap
        (λ a. put_bucket rl k (
          Bucket.refund (Bucket.try_reserve b k (AlgorithmConfig.fixed_window m window) cost now).1
            p now a))
        algo
    ∙ ap (put_bucket rl k) back
