-- ===== src/Limiter/Isolation.antt =====
-- What the calls on src/limiter.rs for one key do to the bucket of another.
use shared_rate_limiter.Base.{
  nat_eq, ◌≡◌, ◌≢◌, ◌⊎◌, refl, subst, ◌∙◌, ap, none, Result, ok, err, Option-cases, inl, inr,
}
use native.Mathlib.Decide.{ℕ_discrete}
use shared_rate_limiter.Types.{
  Key, Duration, Permit, Deny, Outcome, Scope, rate_limited_feedback, sent_no_confirm,
}
use shared_rate_limiter.Limiter.Finalize.{block_on_global, commit, refund}
use shared_rate_limiter.Limiter.Feedback.{block_global}
use shared_rate_limiter.InFlight.Carrier.{
  LimiterInFlightExpiryPolicy, commit_sent_no_confirm, settle_expired,
}
use shared_rate_limiter.Cost.{Cost}
use shared_rate_limiter.Config.{AlgorithmConfig}
use shared_rate_limiter.HashMap
use shared_rate_limiter.HashMap.{keys}
use shared_rate_limiter.HashMap.Laws.{
  IsDistinct, lookup-insert_ne, lookup-remove_self, lookup-remove_ne,
}
use shared_rate_limiter.Bucket
use shared_rate_limiter.Bucket.{BucketState, BucketDeny, remaining_block}
use shared_rate_limiter.Limiter.State.{RateLimiter, resolve_bucket_key, deny_to}
use shared_rate_limiter.Limiter.Ramp.{effective_algorithm, slow_start_pre_deny}
use shared_rate_limiter.Limiter.Keys.{ensure_bucket_capacity, bucket_entry, put_bucket, with_bucket}
use shared_rate_limiter.Limiter.Eviction.{Room, IsIdle, ensure-keeps}
use shared_rate_limiter.Limiter.Acquire.{report, reserve_in_bucket, try_acquire}

-- The bucket of `j` is as it was, or it had no outstanding permit and was evicted.
abbrev pub Apart : RateLimiter → Key → RateLimiter → Type 0
Apart rl j r =
    (HashMap.lookup j r.buckets ≡ HashMap.lookup j rl.buckets)
    ⊎ (IsIdle (HashMap.lookup j rl.buckets) × (HashMap.lookup j r.buckets ≡ none))

-- What keeps the bucket of `j` keeps it apart.
pub Apart-same :
    (rl : RateLimiter) (j : Key) (r r' : RateLimiter)
    → HashMap.lookup j r'.buckets ≡ HashMap.lookup j r.buckets
    → Apart rl j r
    → Apart rl j r'
Apart-same rl j r r' e (inl same) = inl (e ∙ same)
Apart-same rl j r r' e (inr (idle, gone)) = inr (idle, e ∙ gone)

pub entry_apart :
    (rl : RateLimiter) (k j : Key) (now : Duration)
    → k ≢ j
    → HashMap.lookup j (bucket_entry rl k now).1.buckets ≡ HashMap.lookup j rl.buckets
unfolding bucket_entry
entry_apart rl k j now apart = elim (Option-cases (HashMap.lookup k rl.buckets)) [
  | inl e ↦
      rw (e, bucket_entry) (lookup-insert_ne k j (Bucket.new now rl.cfg.algorithm) rl.buckets apart)
  | inr (b, e) ↦ rw (e, bucket_entry) refl
]

pub ensure-Apart :
    (rl : RateLimiter) (route_key k j : Key) (cost : Cost) (now : Duration)
    → IsDistinct (keys rl.buckets)
    → Apart rl j (ensure_bucket_capacity rl route_key k cost now).1
unfolding deny_to
ensure-Apart rl route_key k j cost now d =
    ensure-keeps (Apart rl j) rl route_key k cost now (inl refl) (inl refl)
      λ old rest idx idle taken. elim (ℕ_discrete old j) [
        | yes same ↦ inr (
          subst (λ i. IsIdle (HashMap.lookup i rl.buckets)) same idle,
          subst (λ i. HashMap.lookup i (HashMap.remove old rl.buckets) ≡ none) same
              (lookup-remove_self old rl.buckets d),
        )
        | no other ↦ inl (lookup-remove_ne old j rl.buckets other)
      ]

pub report_apart :
    (rl : RateLimiter) (route_key k : Key) (cost : Cost) (now : Duration)
    (res : Result Permit BucketDeny)
    → (report rl route_key k cost now res).1.buckets ≡ rl.buckets
unfolding report deny_to
report_apart rl route_key k cost now (ok p) = refl
report_apart rl route_key k cost now (err d) = refl

reserve_apart :
    (rl : RateLimiter) (route_key k j : Key) (eff : AlgorithmConfig) (cost : Cost) (now : Duration)
    → k ≢ j
    → HashMap.lookup j (reserve_in_bucket rl route_key k eff cost now).1.buckets
      ≡ HashMap.lookup j rl.buckets
unfolding reserve_in_bucket put_bucket
reserve_apart rl route_key k j eff cost now apart =
    let r = bucket_entry rl k now in
    let out = Bucket.try_reserve r.0 k eff cost now in
    ap (HashMap.lookup j) (report_apart (put_bucket r.1 k out.1) route_key k cost now out.0)
    ∙ lookup-insert_ne k j out.1 r.1.buckets apart
    ∙ entry_apart rl k j now apart

admit-Apart :
    (rl : RateLimiter) (room : Room) (route_key k j : Key) (eff : AlgorithmConfig) (cost : Cost)
    (now : Duration)
    → k ≢ j
    → Apart rl j room.1
    → Apart rl j
        (elim room.0 as (λ _. Result Permit Deny × RateLimiter) [
          | err deny ↦ (err deny, room.1)
          | ok _ ↦ reserve_in_bucket room.1 route_key k eff cost now
        ]).1
admit-Apart rl (err deny, r) route_key k j eff cost now apart h = h
admit-Apart rl (ok _, r) route_key k j eff cost now apart h =
    Apart-same rl j r (reserve_in_bucket r route_key k eff cost now).1
      (reserve_apart r route_key k j eff cost now apart) h

-- An attempt on a route, in a limiter with one bucket for a key, leaves the bucket of every key but
-- the route's own as it was, or evicts it if it has no outstanding permit.
pub try_acquire-Apart :
    (rl : RateLimiter) (route_key j : Key) (cost : Cost) (now : Duration)
    → IsDistinct (keys rl.buckets)
    → resolve_bucket_key rl route_key ≢ j
    → Apart rl j (try_acquire rl route_key cost now).1
unfolding try_acquire deny_to
try_acquire-Apart rl route_key j cost now d apart =
    let k = resolve_bucket_key rl route_key in
    let eff = effective_algorithm rl now in
    elim (Option-cases (remaining_block rl.global_blocked_until now)) [
      | inr (wait, e) ↦ rw (e, try_acquire) (inl refl)
      | inl unblocked ↦ elim (Option-cases (slow_start_pre_deny rl cost now eff)) [
        | inr (wait, e) ↦ rw (unblocked, e, try_acquire) (inl refl)
        | inl allowed ↦
            rw (unblocked, allowed, try_acquire)
              (admit-Apart rl (ensure_bucket_capacity rl route_key k cost now) route_key k j eff
                cost now apart (ensure-Apart rl route_key k j cost now d))
      ]
    ]

with_bucket_apart :
    (rl : RateLimiter) (k j : Key) (f : BucketState → BucketState)
    → k ≢ j
    → HashMap.lookup j (with_bucket rl k f).buckets ≡ HashMap.lookup j rl.buckets
unfolding with_bucket put_bucket
with_bucket_apart rl k j f apart = elim (Option-cases (HashMap.lookup k rl.buckets)) [
  | inl e ↦ rw (e, with_bucket) refl
  | inr (b, e) ↦ rw (e, with_bucket) (lookup-insert_ne k j (f b) rl.buckets apart)
]

pub block_on_global_buckets :
    (rl : RateLimiter) (outcome : Outcome) (now : Duration)
    → (block_on_global rl outcome now).buckets ≡ rl.buckets
unfolding block_on_global block_global
block_on_global_buckets rl (rate_limited_feedback retry_after Scope.global hint) now = refl
block_on_global_buckets rl _ now = refl

commit_apart :
    (rl : RateLimiter) (p : Permit) (outcome : Outcome) (now : Duration) (j : Key)
    → p.key ≢ j
    → HashMap.lookup j (commit rl p outcome now).buckets ≡ HashMap.lookup j rl.buckets
unfolding commit
commit_apart rl p outcome now j apart =
    let rl' = block_on_global rl outcome now in
    with_bucket_apart rl' p.key j (λ b. Bucket.commit b p outcome now rl'.cfg.algorithm) apart
    ∙ ap (HashMap.lookup j) (block_on_global_buckets rl outcome now)

refund_apart :
    (rl : RateLimiter) (p : Permit) (now : Duration) (j : Key)
    → p.key ≢ j
    → HashMap.lookup j (refund rl p now).buckets ≡ HashMap.lookup j rl.buckets
unfolding refund
refund_apart rl p now j apart =
    with_bucket_apart rl p.key j (λ b. Bucket.refund b p now rl.cfg.algorithm) apart

expired_apart :
    (rl : RateLimiter) (p : Permit) (policy : LimiterInFlightExpiryPolicy) (now : Duration)
    (j : Key)
    → p.key ≢ j
    → HashMap.lookup j (settle_expired rl p policy now).buckets ≡ HashMap.lookup j rl.buckets
unfolding settle_expired
expired_apart rl p commit_sent_no_confirm now j apart =
    commit_apart rl p sent_no_confirm now j apart
expired_apart rl p LimiterInFlightExpiryPolicy.refund now j apart = refund_apart rl p now j apart

-- To finalize a permit, by commit, refund, or the expiry of a request in flight, touches no bucket
-- but the one of the permit's key.
settled_apart :
    (rl : RateLimiter) (p : Permit) (outcome : Outcome) (policy : LimiterInFlightExpiryPolicy)
    (now : Duration) (j : Key)
    → p.key ≢ j
    → (HashMap.lookup j (commit rl p outcome now).buckets ≡ HashMap.lookup j rl.buckets)
      × (HashMap.lookup j (refund rl p now).buckets ≡ HashMap.lookup j rl.buckets)
      × (HashMap.lookup j (settle_expired rl p policy now).buckets ≡ HashMap.lookup j rl.buckets)
settled_apart rl p outcome policy now j apart = (
  commit_apart rl p outcome now j apart,
  refund_apart rl p now j apart,
  expired_apart rl p policy now j apart,
)
