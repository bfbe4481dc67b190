-- ===== src/Limiter/Feedback.antt =====
-- src/limiter.rs: `apply_feedback`, the remap of routes and the backoff.
use shared_rate_limiter.Base.{
  nat_eq, max, Bool, true, false, not, if◌then◌else◌, leb, ◌==◌, ◌&&◌, Option, none, some, ok, err,
  ◌∷◌,
}
use shared_rate_limiter.Word.{add_duration}
use shared_rate_limiter.Types.{Key, Duration}
use shared_rate_limiter.Cost
use shared_rate_limiter.Cost.{Cost}
use shared_rate_limiter.Feedback.{RateLimitFeedback, FeedbackScope}
use shared_rate_limiter.Observer.{on_feedback}
use shared_rate_limiter.HashMap
use shared_rate_limiter.HashMap.{HashMap}
use shared_rate_limiter.Bucket
use shared_rate_limiter.Bucket.{BucketState, BucketDeny, BucketDenyReason, remaining_block}
use shared_rate_limiter.Limiter.State.{RateLimiter, resolve_bucket_key}
use shared_rate_limiter.Limiter.Keys.{ensure_bucket_capacity, bucket_entry, put_bucket}

unfoldable pub apply_route_remap : RateLimiter → Key → Key → Bool × RateLimiter
unfolding HashMap.contains_key HashMap.insert
apply_route_remap rl route_key new_bucket =
    let remapped = record rl { route_map = HashMap.insert route_key new_bucket rl.route_map } in
    elim rl.cfg.max_keys [
      | none ↦ (true, remapped)
      | some max_keys ↦
          if leb max_keys (HashMap.len rl.route_map)
            && not (HashMap.contains_key route_key rl.route_map)
          then (false, rl)
          else (true, remapped)
    ]

-- The remap of `apply_feedback`, and whether it was applied.
unfoldable pub remap_route : RateLimiter → Key → Option Key → Option Key × RateLimiter
unfolding apply_route_remap
remap_route rl route_key none = (none, rl)
remap_route rl route_key (some new_bucket) =
    let (applied, rl') = apply_route_remap rl route_key new_bucket in
    (if applied then some new_bucket else none, rl')

-- `backoff` of `apply_feedback`.
unfoldable pub backoff_of : RateLimitFeedback → Duration
backoff_of feedback = elim feedback.remaining [
  | none ↦ feedback.retry_after
  | some remaining ↦ elim feedback.reset_after [
    | none ↦ feedback.retry_after
    | some reset_after ↦
        if remaining == 0 then max feedback.retry_after reset_after else feedback.retry_after
  ]
]

unfoldable pub block_global : RateLimiter → Duration → RateLimiter
block_global rl until = record rl {
  global_blocked_until =
      some (elim rl.global_blocked_until [ none ↦ until | some cur ↦ max cur until ]);
}

-- `bucket_mut_or_insert` and the backoff that is put on the bucket it finds.
unfoldable pub block_bucket : RateLimiter → Key → Key → Duration → Duration → RateLimiter
unfolding ensure_bucket_capacity bucket_entry put_bucket Bucket.apply_blocked_until
block_bucket rl route_key bucket_key now until =
    let (room, rl') = ensure_bucket_capacity rl route_key bucket_key Cost.one now in
    elim room [
      | err _ ↦ rl'
      | ok _ ↦
          let (b, rl'') = bucket_entry rl' bucket_key now in
          put_bucket rl'' bucket_key (Bucket.apply_blocked_until b until)
    ]

unfoldable pub apply_scope :
    RateLimiter → FeedbackScope → Key → Key → Duration → Duration → RateLimiter
unfolding block_global block_bucket
apply_scope rl FeedbackScope.global route_key bucket_key now until = block_global rl until
apply_scope rl FeedbackScope.key route_key bucket_key now until =
    block_bucket rl route_key bucket_key now until
apply_scope rl FeedbackScope.route route_key bucket_key now until =
    block_bucket rl route_key bucket_key now until

unfoldable pub apply_feedback : RateLimiter → Key → RateLimitFeedback → Duration → RateLimiter
unfolding remap_route resolve_bucket_key backoff_of apply_scope
apply_feedback rl route_key feedback now =
    let (applied_remap, rl₁) = remap_route rl route_key feedback.bucket_remap in
    let bucket_key = resolve_bucket_key rl₁ route_key in
    let backoff = backoff_of feedback in
    let rl₂ = apply_scope rl₁ feedback.scope route_key bucket_key now (add_duration now backoff) in
    record rl₂ {
      observer =
          on_feedback (record {
            route_key = route_key;
            bucket_key = bucket_key;
            now = now;
            retry_after = backoff;
            scope = feedback.scope;
            bucket_remap = applied_remap;
          })
          ∷ rl₂.observer;
    }
