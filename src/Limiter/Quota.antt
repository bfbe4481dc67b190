-- ===== src/Limiter/Quota.antt =====
-- The quota of a fixed window in src/limiter.rs: what the calls do to the windows of all keys.
use native.Mathlib.Decide.{ℕ_discrete}
use shared_rate_limiter.Base.{
  nat_eq, ℕ, ◌≤◌, ◌≡◌, sym, subst, ◌∙◌, inl, inr, Option, Option-cases, none, some, Result, ok, err,
  arith,
}
use shared_rate_limiter.Word.{u32_max}
use shared_rate_limiter.Types.{Key, Duration, Permit, Deny}
use shared_rate_limiter.Cost.{Cost}
use shared_rate_limiter.Config.{AlgorithmConfig, SlowStart}
use shared_rate_limiter.HashMap
use shared_rate_limiter.HashMap.{HashMap, keys}
use shared_rate_limiter.HashMap.Laws.{
  IsDistinct, lookup-insert_self, lookup-insert_ne, lookup-remove_self, lookup-remove_ne,
}
use shared_rate_limiter.SlowStart.Ramp.{effective_max-le}
use shared_rate_limiter.Bucket
use shared_rate_limiter.Bucket.{BucketState, BucketDeny, remaining_block}
use shared_rate_limiter.Bucket.Quota.{Quota, Below, try_reserve-Quota}
use shared_rate_limiter.Limiter.State.{RateLimiter, resolve_bucket_key, deny_to}
use shared_rate_limiter.Limiter.Ramp.{scaled, effective_algorithm, slow_start_pre_deny}
use shared_rate_limiter.Limiter.Keys.{ensure_bucket_capacity, bucket_entry, put_bucket}
use shared_rate_limiter.Limiter.Eviction.{Room, ensure-keeps}
use shared_rate_limiter.Limiter.Acquire.{reserve_in_bucket, try_acquire}
use shared_rate_limiter.Limiter.Isolation.{report_apart}

module _ (max : ℕ) where
  -- Each window among some buckets is within the maximum.
  abbrev pub AllQuota : HashMap Key BucketState → Type 0
  AllQuota m = (k : Key) (b : BucketState) → HashMap.lookup k m ≡ some b → Quota max b.algo

  pub insert-AllQuota :
      (k : Key) (b : BucketState) (m : HashMap Key BucketState)
      → Quota max b.algo
      → AllQuota m
      → AllQuota (HashMap.insert k b m)
  insert-AllQuota k b m q h j c found = elim (ℕ_discrete k j) [
    | yes same ↦
        let at_key : HashMap.lookup j (HashMap.insert k b m) ≡ some b =
          subst (λ i. HashMap.lookup i (HashMap.insert k b m) ≡ some b) same
            (lookup-insert_self k b m) in
        let one : b ≡ c = ground (arith, at_key, found) in subst (λ x. Quota max x.algo) one q
    | no other ↦ h j c (sym (lookup-insert_ne k j b m other) ∙ found)
  ]

  remove-AllQuota :
      (k : Key) (m : HashMap Key BucketState)
      → IsDistinct (keys m)
      → AllQuota m
      → AllQuota (HashMap.remove k m)
  remove-AllQuota k m d h j c found = elim (ℕ_discrete k j) [
    | yes same ↦
        let gone : HashMap.lookup j (HashMap.remove k m) ≡ none =
          subst (λ i. HashMap.lookup i (HashMap.remove k m) ≡ none) same
            (lookup-remove_self k m d) in
        absurd (ground (arith, gone, found))
    | no other ↦ h j c (sym (lookup-remove_ne k j m other) ∙ found)
  ]

  pub new_algo-Quota :
      (now : Duration) (algo : AlgorithmConfig) → Quota max (Bucket.new_algo now algo)
  unfolding Bucket.new_algo
  new_algo-Quota now (AlgorithmConfig.fixed_window m window) = omega arith
  new_algo-Quota now (AlgorithmConfig.token_bucket c r) = tt

  -- A bucket that is found or made, and the map behind it.
  pub entry-AllQuota :
      (rl : RateLimiter) (k : Key) (now : Duration)
      → AllQuota rl.buckets
      → Quota max (bucket_entry rl k now).0.algo × AllQuota (bucket_entry rl k now).1.buckets
  unfolding bucket_entry Bucket.new
  entry-AllQuota rl k now h = elim (Option-cases (HashMap.lookup k rl.buckets)) [
    | inl e ↦
        rw (e, bucket_entry)
          (
            new_algo-Quota now rl.cfg.algorithm,
            insert-AllQuota k (Bucket.new now rl.cfg.algorithm) rl.buckets
                (new_algo-Quota now rl.cfg.algorithm) h,
          )
    | inr (b, e) ↦ rw (e, bucket_entry) (h k b e, h)
  ]

  pub ensure-AllQuota :
      (rl : RateLimiter) (route_key k : Key) (cost : Cost) (now : Duration)
      → IsDistinct (keys rl.buckets)
      → AllQuota rl.buckets
      → AllQuota (ensure_bucket_capacity rl route_key k cost now).1.buckets
  unfolding deny_to
  ensure-AllQuota rl route_key k cost now d h =
      ensure-keeps (λ r. AllQuota r.buckets) rl route_key k cost now h h
        (λ old rest idx idle taken. remove-AllQuota old rl.buckets d h)

  scaled-Below :
      (slow : Option SlowStart) (algo : AlgorithmConfig) (started_at now : Duration)
      → Below max algo
      → Below max (scaled slow algo started_at now)
  unfolding scaled
  scaled-Below none algo started_at now le = le
  scaled-Below (some slow) (AlgorithmConfig.fixed_window m window) started_at now le =
      omega (arith, le, effective_max-le m slow started_at now)
  scaled-Below (some slow) (AlgorithmConfig.token_bucket c r) started_at now le = tt

  module _ (fits : max ≤ u32_max) where
    reserve-AllQuota :
        (rl : RateLimiter) (route_key k : Key) (eff : AlgorithmConfig) (cost : Cost)
        (now : Duration)
        → Below max eff
        → AllQuota rl.buckets
        → AllQuota (reserve_in_bucket rl route_key k eff cost now).1.buckets
    unfolding reserve_in_bucket put_bucket
    reserve-AllQuota rl route_key k eff cost now le h =
        let r = bucket_entry rl k now in
        let out = Bucket.try_reserve r.0 k eff cost now in
        let (q, rest) = entry-AllQuota rl k now h in
        subst AllQuota (sym (report_apart (put_bucket r.1 k out.1) route_key k cost now out.0)) (
          insert-AllQuota k out.1 r.1.buckets (try_reserve-Quota max fits r.0 k eff cost now le q)
            rest)

    admit-AllQuota :
        (room : Room) (route_key k : Key) (eff : AlgorithmConfig) (cost : Cost) (now : Duration)
        → Below max eff
        → AllQuota room.1.buckets
        → AllQuota
            (elim room.0 as (λ _. Result Permit Deny × RateLimiter) [
              | err deny ↦ (err deny, room.1)
              | ok _ ↦ reserve_in_bucket room.1 route_key k eff cost now
            ]).1.buckets
    admit-AllQuota (err deny, r) route_key k eff cost now le h = h
    admit-AllQuota (ok _, r) route_key k eff cost now le h =
        reserve-AllQuota r route_key k eff cost now le h

    pub try_acquire-AllQuota :
        (rl : RateLimiter) (route_key : Key) (cost : Cost) (now : Duration)
        → IsDistinct (keys rl.buckets)
        → Below max rl.cfg.algorithm
        → AllQuota rl.buckets
        → AllQuota (try_acquire rl route_key cost now).1.buckets
    unfolding try_acquire deny_to effective_algorithm
    try_acquire-AllQuota rl route_key cost now d le h =
        let k = resolve_bucket_key rl route_key in
        let eff = effective_algorithm rl now in
        elim (Option-cases (remaining_block rl.global_blocked_until now)) [
          | inr (wait, e) ↦ rw (e, try_acquire) h
          | inl unblocked ↦ elim (Option-cases (slow_start_pre_deny rl cost now eff)) [
            | inr (wait, e) ↦ rw (unblocked, e, try_acquire) h
            | inl passes ↦
                rw (unblocked, passes, try_acquire)
                  (admit-AllQuota (ensure_bucket_capacity rl route_key k cost now) route_key k eff
                    cost now (scaled-Below rl.cfg.slow_start rl.cfg.algorithm rl.started_at now le)
                    (ensure-AllQuota rl route_key k cost now d h))
          ]
        ]
