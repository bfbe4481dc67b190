-- ===== src/Limiter/Easing.antt =====
-- What a grant of src/limiter.rs reserves under a slow start.
use shared_rate_limiter.Base.{
  nat_eq, ℕ, ◌≤◌, ◌<◌, ◌≡◌, refl, sym, subst, ok, err, some, Result, inl, inr, Option-cases, arith,
}
use shared_rate_limiter.Word.{u32_max}
use shared_rate_limiter.Types.{Key, Duration, Permit, Deny}
use shared_rate_limiter.Cost.{Cost, get, IsCost}
use shared_rate_limiter.Config.{AlgorithmConfig, SlowStart}
use shared_rate_limiter.SlowStart.{effective_max}
use shared_rate_limiter.SlowStart.Ramp.{effective_max-le}
use shared_rate_limiter.HashMap
use shared_rate_limiter.HashMap.Laws.{lookup-insert_self}
use shared_rate_limiter.Bucket
use shared_rate_limiter.Bucket.{BucketState, BucketDeny, AlgoState, remaining_block}
use shared_rate_limiter.Bucket.Grant.{Reserves, try_reserve-Reserves}
use shared_rate_limiter.Limiter.State.{RateLimiter, resolve_bucket_key, deny_to}
use shared_rate_limiter.Limiter.Ramp.{scaled, effective_algorithm, slow_start_pre_deny}
use shared_rate_limiter.Limiter.Keys.{ensure_bucket_capacity, bucket_entry, put_bucket}
use shared_rate_limiter.Limiter.Acquire.{report, reserve_in_bucket, try_acquire}

-- The permit reserves in the bucket of the key, and what is spent and reserved there is within `max`.
abbrev pub ReservesIn : ℕ → Key → Cost → Permit → RateLimiter → Type 0
ReservesIn max k cost p rl =
    (b : BucketState) × (HashMap.lookup k rl.buckets ≡ some b) × Reserves max k cost p b

pub report-Reserves :
    (rl : RateLimiter) (route_key k : Key) (cost : Cost) (now : Duration)
    (r : Result Permit BucketDeny) {p : Permit}
    → (report rl route_key k cost now r).0 ≡ ok p
    → (r ≡ ok p) × ((report rl route_key k cost now r).1 ≡ rl)
unfolding report deny_to
report-Reserves rl route_key k cost now (ok q) granted = (ground (arith, granted), refl)
report-Reserves rl route_key k cost now (err d) granted = absurd (cc granted)

module _ (route_key k : Key) (max window : ℕ) (cost : Cost) (now : Duration) (eff : AlgorithmConfig)
    (is : eff ≡ AlgorithmConfig.fixed_window max window) (fits : max ≤ u32_max)
    (pos : 0 < get cost) where
  reserve-ReservesIn :
      (rl : RateLimiter) {p : Permit}
      → (reserve_in_bucket rl route_key k eff cost now).0 ≡ ok p
      → ReservesIn max k cost p (reserve_in_bucket rl route_key k eff cost now).1
  unfolding reserve_in_bucket put_bucket
  reserve-ReservesIn rl {p} granted =
      let (b, rl') = bucket_entry rl k now in
      let r = Bucket.try_reserve b k eff cost now in
      let (won, same) = report-Reserves (put_bucket rl' k r.1) route_key k cost now r.0 granted in
      subst (ReservesIn max k cost p) (sym same) (
        r.1,
        lookup-insert_self k r.1 rl'.buckets,
        subst (λ a. Reserves max k cost p (Bucket.try_reserve b k a cost now).1) (sym is)
            (try_reserve-Reserves k max window cost now fits b pos
              (subst (λ a. (Bucket.try_reserve b k a cost now).0 ≡ ok p) is won)),
      )

  room-ReservesIn :
      (room : Result (Unit {0}) Deny) (rl : RateLimiter) {p : Permit}
      → (elim room as (λ _. Result Permit Deny × RateLimiter) [
        | err deny ↦ (err deny, rl)
        | ok _ ↦ reserve_in_bucket rl route_key k eff cost now
      ]).0
        ≡ ok p
      → ReservesIn max k cost p
          (elim room as (λ _. Result Permit Deny × RateLimiter) [
            | err deny ↦ (err deny, rl)
            | ok _ ↦ reserve_in_bucket rl route_key k eff cost now
          ]).1
  room-ReservesIn (err deny) rl granted = absurd (cc granted)
  room-ReservesIn (ok _) rl granted = reserve-ReservesIn rl granted

-- Under a window of `max`, a `u32`, and a slow start, a grant reserves in the bucket that the route
-- resolves to, and what is spent and reserved in its window then, the grant included, is at most the
-- share of `max` that the ramp allows at the time of the call.
pub try_acquire-ReservesIn :
    (rl : RateLimiter) (max window : ℕ) (slow : SlowStart) (route_key : Key) (cost : Cost)
    (now : Duration) {p : Permit}
    → rl.cfg.algorithm ≡ AlgorithmConfig.fixed_window max window
    → rl.cfg.slow_start ≡ some slow
    → max ≤ u32_max
    → IsCost cost
    → (try_acquire rl route_key cost now).0 ≡ ok p
    → ReservesIn
        (effective_max max slow rl.started_at now)
        (resolve_bucket_key rl route_key)
        cost
        p
        (try_acquire rl route_key cost now).1
unfolding try_acquire deny_to effective_algorithm scaled
try_acquire-ReservesIn rl max window slow route_key cost now {p} algo ramp fits valid granted =
    let k = resolve_bucket_key rl route_key in
    let most = effective_max max slow rl.started_at now in
    let is : effective_algorithm rl now ≡ AlgorithmConfig.fixed_window most window =
      rw (ramp, algo) refl in
    let room = ensure_bucket_capacity rl route_key k cost now in
    elim (Option-cases (remaining_block rl.global_blocked_until now)) [
      | inr (wait, e) ↦ absurd (cc (rw (e, try_acquire) at granted))
      | inl unblocked ↦
          elim (Option-cases (slow_start_pre_deny rl cost now (effective_algorithm rl now))) [
            | inr (wait, e) ↦ absurd (cc (rw (unblocked, e, try_acquire) at granted))
            | inl passes ↦
                rw (unblocked, passes, try_acquire)
                  (room-ReservesIn route_key k most window cost now (effective_algorithm rl now) is
                    (omega (arith, effective_max-le max slow rl.started_at now, fits)) valid.nonzero
                    room.0 room.1 (rw (unblocked, passes, try_acquire) at granted))
          ]
    ]
