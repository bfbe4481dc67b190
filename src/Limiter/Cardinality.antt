-- ===== src/Limiter/Cardinality.antt =====
-- What the other calls on src/limiter.rs do to the queue, the map and the bound on their keys.
use shared_rate_limiter.Base.{refl, inl, inr, ok, err, arith, nat_eq, Option-cases}
use shared_rate_limiter.Types.{Key, Duration, Permit, Outcome, rate_limited_feedback, Scope}
use shared_rate_limiter.Cost
use shared_rate_limiter.Cost.{Cost}
use shared_rate_limiter.Config.{Config}
use shared_rate_limiter.Feedback.{RateLimitFeedback, FeedbackScope}
use shared_rate_limiter.Word.{add_duration}
use shared_rate_limiter.HashMap
use shared_rate_limiter.HashMap.{HashMap, keys, len}
use shared_rate_limiter.HashMap.Laws.{contains_of_some}
use shared_rate_limiter.Bucket
use shared_rate_limiter.Bucket.{BucketState, BucketDeny, remaining_block}
use shared_rate_limiter.Limiter.State.{RateLimiter, new_at, resolve_bucket_key}
use shared_rate_limiter.Limiter.Keys.{ensure_bucket_capacity, bucket_entry, put_bucket, with_bucket}
use shared_rate_limiter.Limiter.Acquire.{try_acquire}
use shared_rate_limiter.Limiter.Feedback.{
  remap_route, block_bucket, apply_scope, apply_feedback, backoff_of,
}
use shared_rate_limiter.Limiter.Finalize.{block_on_global, commit, refund}
use shared_rate_limiter.Limiter.Eviction.{Room}
use shared_rate_limiter.Limiter.Remap.{remap-cases}
use shared_rate_limiter.Limiter.Tracking.{IsTracked, within, RoomTracked, ensure-RoomTracked}
use shared_rate_limiter.Limiter.Bound.{put-IsTracked, entry-EntryTracked, try_acquire-IsTracked}

block_bucket-IsTracked :
    (rl : RateLimiter) (route_key k : Key) (now until : Duration)
    → IsTracked rl
    → IsTracked (block_bucket rl route_key k now until)
unfolding block_bucket
block_bucket-IsTracked rl route_key k now until h =
    go (ensure_bucket_capacity rl route_key k Cost.one now)
      (ensure-RoomTracked rl route_key k Cost.one now h)
  where
    go :
        (room : Room)
        → RoomTracked k room
        → IsTracked (elim room.0 as (λ _. RateLimiter) [
          | err _ ↦ room.1
          | ok _ ↦
              let r = bucket_entry room.1 k now in
              put_bucket r.1 k (Bucket.apply_blocked_until r.0 until)
        ])
    go (err deny, rl') t = t
    go (ok _, rl') t =
        let entry = entry-EntryTracked rl' k now t.0 t.1 in
        put-IsTracked (bucket_entry rl' k now).1 k _ entry.0 entry.1

apply_scope-IsTracked :
    (rl : RateLimiter) (scope : FeedbackScope) (route_key k : Key) (now until : Duration)
    → IsTracked rl
    → IsTracked (apply_scope rl scope route_key k now until)
unfolding apply_scope
apply_scope-IsTracked rl FeedbackScope.global route_key k now until h = record {
  queued = h.queued;
  distinct = h.distinct;
  bounded = h.bounded;
}
apply_scope-IsTracked rl FeedbackScope.key route_key k now until h =
    block_bucket-IsTracked rl route_key k now until h
apply_scope-IsTracked rl FeedbackScope.route route_key k now until h =
    block_bucket-IsTracked rl route_key k now until h

pub apply_feedback-IsTracked :
    (rl : RateLimiter) (route_key : Key) (feedback : RateLimitFeedback) (now : Duration)
    → IsTracked rl
    → IsTracked (apply_feedback rl route_key feedback now)
unfolding apply_feedback
apply_feedback-IsTracked rl route_key feedback now h =
    let rl' = (remap_route rl route_key feedback.bucket_remap).1 in
    let remapped =
      remap-cases IsTracked rl route_key feedback.bucket_remap h
        λ routes. record { queued = h.queued; distinct = h.distinct; bounded = h.bounded } in
    let applied =
      apply_scope-IsTracked rl' feedback.scope route_key (resolve_bucket_key rl' route_key) now
        (add_duration now (backoff_of feedback)) remapped in
    record { queued = applied.queued; distinct = applied.distinct; bounded = applied.bounded }

with_bucket-IsTracked :
    (rl : RateLimiter) (k : Key) (f : BucketState → BucketState)
    → IsTracked rl
    → IsTracked (with_bucket rl k f)
unfolding with_bucket
with_bucket-IsTracked rl k f h = elim (Option-cases (HashMap.lookup k rl.buckets)) [
  | inl e ↦ rw (e, with_bucket) h
  | inr (b, e) ↦
      rw (e, with_bucket) (put-IsTracked rl k (f b) h (contains_of_some k rl.buckets b e))
]

block_on_global-IsTracked :
    (rl : RateLimiter) (outcome : Outcome) (now : Duration)
    → IsTracked rl
    → IsTracked (block_on_global rl outcome now)
unfolding block_on_global
block_on_global-IsTracked rl (rate_limited_feedback retry_after Scope.global hint) now h = record {
  queued = h.queued;
  distinct = h.distinct;
  bounded = h.bounded;
}
block_on_global-IsTracked rl _ now h = h

pub commit-IsTracked :
    (rl : RateLimiter) (p : Permit) (outcome : Outcome) (now : Duration)
    → IsTracked rl
    → IsTracked (commit rl p outcome now)
unfolding commit
commit-IsTracked rl p outcome now h =
    with_bucket-IsTracked (block_on_global rl outcome now) p.key _
      (block_on_global-IsTracked rl outcome now h)

pub refund-IsTracked :
    (rl : RateLimiter) (p : Permit) (now : Duration) → IsTracked rl → IsTracked (refund rl p now)
unfolding refund
refund-IsTracked rl p now h = with_bucket-IsTracked rl p.key _ h

-- A new limiter is tracked, and every call but `update_config` keeps it so: the queue holds the keys
-- of the map in order, each once, and there are no more of them than `max_keys` if it is set. This
-- is whatever the key, the cost, the time, the permit and the outcome are, and for both policies.
pub calls-IsTracked :
    (cfg : Config) (started_at : Duration) (rl : RateLimiter) (route_key : Key) (cost : Cost)
    (feedback : RateLimitFeedback) (p : Permit) (outcome : Outcome) (now : Duration)
    → IsTracked rl
    → IsTracked (new_at cfg started_at)
      × IsTracked (try_acquire rl route_key cost now).1
      × IsTracked (apply_feedback rl route_key feedback now)
      × IsTracked (commit rl p outcome now)
      × IsTracked (refund rl p now)
unfolding new_at
calls-IsTracked cfg started_at rl route_key cost feedback p outcome now h = (
  record { queued = refl; distinct = tt; bounded = within cfg.max_keys 0 (λ n e. omega arith) },
  try_acquire-IsTracked rl route_key cost now h,
  apply_feedback-IsTracked rl route_key feedback now h,
  commit-IsTracked rl p outcome now h,
  refund-IsTracked rl p now h,
)
