-- ===== src/Limiter/Settings.antt =====
-- src/limiter.rs: the configuration under the calls that do not update it.
use shared_rate_limiter.Base.{nat_eq, ◌≡◌, refl, ◌∙◌, inl, inr, Option-cases, Result, ok, err}
use shared_rate_limiter.Word.{add_duration}
use shared_rate_limiter.Types.{Key, Duration, Permit, Deny, Outcome, Scope, rate_limited_feedback}
use shared_rate_limiter.Cost
use shared_rate_limiter.Cost.{Cost}
use shared_rate_limiter.Config.{AlgorithmConfig}
use shared_rate_limiter.Feedback.{RateLimitFeedback, FeedbackScope}
use shared_rate_limiter.HashMap
use shared_rate_limiter.HashMap.{HashMap, keys}
use shared_rate_limiter.Bucket
use shared_rate_limiter.Bucket.{BucketState, BucketDeny, remaining_block}
use shared_rate_limiter.Limiter.State.{RateLimiter, resolve_bucket_key, deny_to}
use shared_rate_limiter.Limiter.Ramp.{effective_algorithm, slow_start_pre_deny}
use shared_rate_limiter.Limiter.Keys.{ensure_bucket_capacity, bucket_entry, put_bucket, with_bucket}
use shared_rate_limiter.Limiter.Eviction.{Room, ensure-keeps}
use shared_rate_limiter.Limiter.Acquire.{report, reserve_in_bucket, try_acquire}
use shared_rate_limiter.Limiter.Feedback.{
  remap_route, apply_scope, block_bucket, block_global, backoff_of, apply_feedback,
}
use shared_rate_limiter.Limiter.Finalize.{block_on_global, commit, refund}
use shared_rate_limiter.Limiter.Remap.{remap-cases}

entry_cfg : (rl : RateLimiter) (k : Key) (now : Duration) → (bucket_entry rl k now).1.cfg ≡ rl.cfg
unfolding bucket_entry
entry_cfg rl k now = elim (Option-cases (HashMap.lookup k rl.buckets)) [
  | inl e ↦ rw (e, bucket_entry) refl
  | inr (b, e) ↦ rw (e, bucket_entry) refl
]

ensure_cfg :
    (rl : RateLimiter) (route_key k : Key) (cost : Cost) (now : Duration)
    → (ensure_bucket_capacity rl route_key k cost now).1.cfg ≡ rl.cfg
unfolding deny_to
ensure_cfg rl route_key k cost now =
    ensure-keeps (λ r. r.cfg ≡ rl.cfg) rl route_key k cost now refl refl
      (λ old rest idx idle taken. refl)

report_cfg :
    (rl : RateLimiter) (route_key k : Key) (cost : Cost) (now : Duration)
    (res : Result Permit BucketDeny)
    → (report rl route_key k cost now res).1.cfg ≡ rl.cfg
unfolding report deny_to
report_cfg rl route_key k cost now (ok p) = refl
report_cfg rl route_key k cost now (err d) = refl

admit_cfg :
    (room : Room) (route_key k : Key) (eff : AlgorithmConfig) (cost : Cost) (now : Duration)
    → (elim room.0 as (λ _. Result Permit Deny × RateLimiter) [
      | err deny ↦ (err deny, room.1)
      | ok _ ↦ reserve_in_bucket room.1 route_key k eff cost now
    ]).1.cfg
      ≡ room.1.cfg
unfolding reserve_in_bucket put_bucket
admit_cfg (err deny, rl) route_key k eff cost now = refl
admit_cfg (ok _, rl) route_key k eff cost now =
    let r = bucket_entry rl k now in
    let out = Bucket.try_reserve r.0 k eff cost now in
    report_cfg (put_bucket r.1 k out.1) route_key k cost now out.0 ∙ entry_cfg rl k now

pub try_acquire_cfg :
    (rl : RateLimiter) (route_key : Key) (cost : Cost) (now : Duration)
    → (try_acquire rl route_key cost now).1.cfg ≡ rl.cfg
unfolding try_acquire deny_to
try_acquire_cfg rl route_key cost now =
    let k = resolve_bucket_key rl route_key in
    let eff = effective_algorithm rl now in
    elim (Option-cases (remaining_block rl.global_blocked_until now)) [
      | inr (wait, e) ↦ rw (e, try_acquire) refl
      | inl unblocked ↦ elim (Option-cases (slow_start_pre_deny rl cost now eff)) [
        | inr (wait, e) ↦ rw (unblocked, e, try_acquire) refl
        | inl passes ↦
            rw (unblocked, passes, try_acquire)
              (admit_cfg (ensure_bucket_capacity rl route_key k cost now) route_key k eff cost now
                ∙ ensure_cfg rl route_key k cost now)
      ]
    ]

with_bucket_cfg :
    (rl : RateLimiter) (k : Key) (f : BucketState → BucketState) → (with_bucket rl k f).cfg ≡ rl.cfg
unfolding with_bucket put_bucket
with_bucket_cfg rl k f = elim (Option-cases (HashMap.lookup k rl.buckets)) [
  | inl e ↦ rw (e, with_bucket) refl
  | inr (b, e) ↦ rw (e, with_bucket) refl
]

block_on_global_cfg :
    (rl : RateLimiter) (outcome : Outcome) (now : Duration)
    → (block_on_global rl outcome now).cfg ≡ rl.cfg
unfolding block_on_global block_global
block_on_global_cfg rl (rate_limited_feedback retry_after Scope.global hint) now = refl
block_on_global_cfg rl _ now = refl

pub commit_cfg :
    (rl : RateLimiter) (p : Permit) (outcome : Outcome) (now : Duration)
    → (commit rl p outcome now).cfg ≡ rl.cfg
unfolding commit
commit_cfg rl p outcome now = with_bucket_cfg _ p.key _ ∙ block_on_global_cfg rl outcome now

pub refund_cfg : (rl : RateLimiter) (p : Permit) (now : Duration) → (refund rl p now).cfg ≡ rl.cfg
unfolding refund
refund_cfg rl p now = with_bucket_cfg rl p.key _

block_bucket_cfg :
    (rl : RateLimiter) (route_key k : Key) (now until : Duration)
    → (block_bucket rl route_key k now until).cfg ≡ rl.cfg
unfolding block_bucket put_bucket
block_bucket_cfg rl route_key k now until =
    go (ensure_bucket_capacity rl route_key k Cost.one now) ∙ ensure_cfg rl route_key k Cost.one now
  where
    go :
        (room : Room)
        → (elim room.0 as (λ _. RateLimiter) [
          | err _ ↦ room.1
          | ok _ ↦
              let r = bucket_entry room.1 k now in
              put_bucket r.1 k (Bucket.apply_blocked_until r.0 until)
        ]).cfg
          ≡ room.1.cfg
    go (err deny, rl') = refl
    go (ok _, rl') = entry_cfg rl' k now

apply_scope_cfg :
    (rl : RateLimiter) (scope : FeedbackScope) (route_key k : Key) (now until : Duration)
    → (apply_scope rl scope route_key k now until).cfg ≡ rl.cfg
unfolding apply_scope block_global
apply_scope_cfg rl FeedbackScope.global route_key k now until = refl
apply_scope_cfg rl FeedbackScope.key route_key k now until =
    block_bucket_cfg rl route_key k now until
apply_scope_cfg rl FeedbackScope.route route_key k now until =
    block_bucket_cfg rl route_key k now until

pub apply_feedback_cfg :
    (rl : RateLimiter) (route_key : Key) (feedback : RateLimitFeedback) (now : Duration)
    → (apply_feedback rl route_key feedback now).cfg ≡ rl.cfg
unfolding apply_feedback
apply_feedback_cfg rl route_key feedback now =
    let rl' = (remap_route rl route_key feedback.bucket_remap).1 in
    apply_scope_cfg rl' feedback.scope route_key (resolve_bucket_key rl' route_key) now
      (add_duration now (backoff_of feedback))
    ∙ remap-cases (λ r. r.cfg ≡ rl.cfg) rl route_key feedback.bucket_remap refl (λ routes. refl)
