-- ===== src/Limiter/Scoping.antt =====
-- What `apply_feedback` of src/limiter.rs does to the buckets of other keys.
use shared_rate_limiter.Base.{nat_eq, ◌≡◌, ◌≢◌, refl, sym, subst, ◌∙◌, ◌⊎◌, inl, none, ok, err}
use shared_rate_limiter.Word.{add_duration}
use shared_rate_limiter.Types.{Key, Duration}
use shared_rate_limiter.Cost
use shared_rate_limiter.Feedback.{RateLimitFeedback, FeedbackScope}
use shared_rate_limiter.HashMap
use shared_rate_limiter.HashMap.{keys}
use shared_rate_limiter.HashMap.Laws.{IsDistinct, lookup-insert_ne}
use shared_rate_limiter.Bucket
use shared_rate_limiter.Limiter.State.{RateLimiter, resolve_bucket_key}
use shared_rate_limiter.Limiter.Keys.{ensure_bucket_capacity, bucket_entry, put_bucket}
use shared_rate_limiter.Limiter.Eviction.{Room, IsIdle}
use shared_rate_limiter.Limiter.Feedback.{
  remap_route, apply_scope, block_bucket, block_global, backoff_of, apply_feedback,
}
use shared_rate_limiter.Limiter.Remap.{remap-cases}
use shared_rate_limiter.Limiter.Isolation.{Apart, Apart-same, entry_apart, ensure-Apart}

block_bucket-Apart :
    (rl : RateLimiter) (route_key k j : Key) (now until : Duration)
    → IsDistinct (keys rl.buckets)
    → k ≢ j
    → Apart rl j (block_bucket rl route_key k now until)
unfolding block_bucket put_bucket
block_bucket-Apart rl route_key k j now until d apart =
    go (ensure_bucket_capacity rl route_key k Cost.one now)
      (ensure-Apart rl route_key k j Cost.one now d)
  where
    go :
        (room : Room)
        → Apart rl j room.1
        → Apart rl j (elim room.0 as (λ _. RateLimiter) [
          | err _ ↦ room.1
          | ok _ ↦
              let r = bucket_entry room.1 k now in
              put_bucket r.1 k (Bucket.apply_blocked_until r.0 until)
        ])
    go (err deny, rl') h = h
    go (ok _, rl') h =
        let r = bucket_entry rl' k now in
        let b = Bucket.apply_blocked_until r.0 until in
        Apart-same rl j rl' (put_bucket r.1 k b)
          (lookup-insert_ne k j b r.1.buckets apart ∙ entry_apart rl' k j now apart) h

apply_scope-Apart :
    (rl : RateLimiter) (scope : FeedbackScope) (route_key k j : Key) (now until : Duration)
    → IsDistinct (keys rl.buckets)
    → k ≢ j
    → Apart rl j (apply_scope rl scope route_key k now until)
unfolding apply_scope block_global
apply_scope-Apart rl FeedbackScope.global route_key k j now until d apart = inl refl
apply_scope-Apart rl FeedbackScope.key route_key k j now until d apart =
    block_bucket-Apart rl route_key k j now until d apart
apply_scope-Apart rl FeedbackScope.route route_key k j now until d apart =
    block_bucket-Apart rl route_key k j now until d apart

-- A feedback on a route, in a limiter with one bucket for a key, leaves the bucket of every key but
-- the one that the route has behind the remap as it was, or evicts it if it has no outstanding permit.
pub apply_feedback-Apart :
    (rl : RateLimiter) (route_key j : Key) (feedback : RateLimitFeedback) (now : Duration)
    → IsDistinct (keys rl.buckets)
    → resolve_bucket_key (remap_route rl route_key feedback.bucket_remap).1 route_key ≢ j
    → Apart rl j (apply_feedback rl route_key feedback now)
unfolding apply_feedback
apply_feedback-Apart rl route_key j feedback now d apart =
    let rl' = (remap_route rl route_key feedback.bucket_remap).1 in
    let same : rl'.buckets ≡ rl.buckets =
      remap-cases (λ r. r.buckets ≡ rl.buckets) rl route_key feedback.bucket_remap refl
        (λ routes. refl) in
    let until = add_duration now (backoff_of feedback) in
    let k = resolve_bucket_key rl' route_key in
    let r = apply_scope rl' feedback.scope route_key k now until in
    subst
      (λ m.
        (HashMap.lookup j r.buckets ≡ HashMap.lookup j m)
        ⊎ (IsIdle (HashMap.lookup j m) × (HashMap.lookup j r.buckets ≡ none)))
      same
      (apply_scope-Apart rl' feedback.scope route_key k j now until
        (subst (λ m. IsDistinct (keys m)) (sym same) d) apart)
