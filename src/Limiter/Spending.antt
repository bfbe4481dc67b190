-- ===== src/Limiter/Spending.antt =====
-- The quota of a fixed window in src/limiter.rs, over the calls that finalize permits and take feedback.
use shared_rate_limiter.Base.{
  nat_eq, ℕ, ◌≤◌, ◌≡◌, refl, sym, subst, ap, ◌∙◌, inl, inr, Option-cases, some, ok, err, List, ◌∷◌,
  ◌++◌,
}
use shared_rate_limiter.Word.{u32_max, add_duration}
use shared_rate_limiter.Types.{Key, Duration, Permit, Outcome}
use shared_rate_limiter.Cost
use shared_rate_limiter.Cost.{Cost}
use shared_rate_limiter.Feedback.{RateLimitFeedback, FeedbackScope}
use shared_rate_limiter.HashMap
use shared_rate_limiter.HashMap.{HashMap, keys}
use shared_rate_limiter.HashMap.Laws.{IsDistinct}
use shared_rate_limiter.Bucket
use shared_rate_limiter.Bucket.{BucketState, BucketDeny, remaining_block}
use shared_rate_limiter.Bucket.Ledger.{Booked}
use shared_rate_limiter.Bucket.Quota.{Quota, Covered, Booked-Covered, commit-Quota, refund-Quota}
use shared_rate_limiter.Limiter.State.{RateLimiter, resolve_bucket_key}
use shared_rate_limiter.Limiter.Keys.{ensure_bucket_capacity, bucket_entry, put_bucket, with_bucket}
use shared_rate_limiter.Limiter.Eviction.{Room}
use shared_rate_limiter.Limiter.Feedback.{
  remap_route, apply_scope, block_bucket, block_global, backoff_of, apply_feedback,
}
use shared_rate_limiter.Limiter.Finalize.{block_on_global, commit, refund}
use shared_rate_limiter.Limiter.Remap.{remap-cases}
use shared_rate_limiter.Limiter.Isolation.{block_on_global_buckets}
use shared_rate_limiter.Limiter.Ledger.{AtKey, held}
use shared_rate_limiter.Limiter.Booking.{IsBooked}
use shared_rate_limiter.Limiter.Settling.{held-middle}
use shared_rate_limiter.Limiter.Quota.{AllQuota, insert-AllQuota, entry-AllQuota, ensure-AllQuota}

module _ (max : ℕ) where
  with_bucket-AllQuota :
      (rl : RateLimiter) (k : Key) (f : BucketState → BucketState)
      → ((b : BucketState) → HashMap.lookup k rl.buckets ≡ some b → Quota max (f b).algo)
      → AllQuota max rl.buckets
      → AllQuota max (with_bucket rl k f).buckets
  unfolding with_bucket put_bucket
  with_bucket-AllQuota rl k f q h = elim (Option-cases (HashMap.lookup k rl.buckets)) [
    | inl e ↦ rw (e, with_bucket) h
    | inr (b, e) ↦ rw (e, with_bucket) (insert-AllQuota max k (f b) rl.buckets (q b e) h)
  ]

  pub refund-AllQuota :
      (rl : RateLimiter) (p : Permit) (now : Duration)
      → max ≤ u32_max
      → AllQuota max rl.buckets
      → AllQuota max (refund rl p now).buckets
  unfolding refund
  refund-AllQuota rl p now fits h =
      with_bucket-AllQuota rl p.key _
        (λ b e. refund-Quota max fits b p now rl.cfg.algorithm (h p.key b e)) h

  -- The cost of a permit that is out is reserved in its bucket.
  pub out-Covered :
      (rl : RateLimiter) (before : List Permit) (p : Permit) (after : List Permit) (b : BucketState)
      → IsBooked rl (before ++ p ∷ after)
      → HashMap.lookup p.key rl.buckets ≡ some b
      → Covered p.cost b.algo
  out-Covered rl before p after b x e =
      Booked-Covered rl.cfg.algorithm b.algo (held p.key before) p (held p.key after) (
        subst (Booked rl.cfg.algorithm b.algo) (held-middle p.key before p after refl) (
          subst (λ o. AtKey rl.cfg.algorithm o (held p.key (before ++ p ∷ after))) e
            (x.accounts.at p.key)))

  pub commit-AllQuota :
      (rl : RateLimiter) (before : List Permit) (p : Permit) (after : List Permit)
      (outcome : Outcome) (now : Duration)
      → max ≤ u32_max
      → IsBooked rl (before ++ p ∷ after)
      → AllQuota max rl.buckets
      → AllQuota max (commit rl p outcome now).buckets
  unfolding commit
  commit-AllQuota rl before p after outcome now fits x h =
      let rl' = block_on_global rl outcome now in
      let same = block_on_global_buckets rl outcome now in
      with_bucket-AllQuota rl' p.key _
        (λ b e.
          let e' = sym (ap (HashMap.lookup p.key) same) ∙ e in
          commit-Quota max fits b p outcome now rl'.cfg.algorithm
            (out-Covered rl before p after b x e') (h p.key b e'))
        (subst (AllQuota max) (sym same) h)

  block_bucket-AllQuota :
      (rl : RateLimiter) (route_key k : Key) (now until : Duration)
      → IsDistinct (keys rl.buckets)
      → AllQuota max rl.buckets
      → AllQuota max (block_bucket rl route_key k now until).buckets
  unfolding block_bucket put_bucket Bucket.apply_blocked_until
  block_bucket-AllQuota rl route_key k now until d h =
      go (ensure_bucket_capacity rl route_key k Cost.one now)
        (ensure-AllQuota max rl route_key k Cost.one now d h)
    where
      go :
          (room : Room)
          → AllQuota max room.1.buckets
          → AllQuota max
              (elim room.0 as (λ _. RateLimiter) [
                | err _ ↦ room.1
                | ok _ ↦
                    let r = bucket_entry room.1 k now in
                    put_bucket r.1 k (Bucket.apply_blocked_until r.0 until)
              ]).buckets
      go (err deny, rl') q = q
      go (ok _, rl') q =
          let (own, rest) = entry-AllQuota max rl' k now q in
          insert-AllQuota max k (Bucket.apply_blocked_until (bucket_entry rl' k now).0 until)
            (bucket_entry rl' k now).1.buckets own rest

  apply_scope-AllQuota :
      (rl : RateLimiter) (scope : FeedbackScope) (route_key k : Key) (now until : Duration)
      → IsDistinct (keys rl.buckets)
      → AllQuota max rl.buckets
      → AllQuota max (apply_scope rl scope route_key k now until).buckets
  unfolding apply_scope block_global
  apply_scope-AllQuota rl FeedbackScope.global route_key k now until d h = h
  apply_scope-AllQuota rl FeedbackScope.key route_key k now until d h =
      block_bucket-AllQuota rl route_key k now until d h
  apply_scope-AllQuota rl FeedbackScope.route route_key k now until d h =
      block_bucket-AllQuota rl route_key k now until d h

  pub apply_feedback-AllQuota :
      (rl : RateLimiter) (route_key : Key) (feedback : RateLimitFeedback) (now : Duration)
      → IsDistinct (keys rl.buckets)
      → AllQuota max rl.buckets
      → AllQuota max (apply_feedback rl route_key feedback now).buckets
  unfolding apply_feedback
  apply_feedback-AllQuota rl route_key feedback now d h =
      let rl' = (remap_route rl route_key feedback.bucket_remap).1 in
      let same : rl'.buckets ≡ rl.buckets =
        remap-cases (λ r. r.buckets ≡ rl.buckets) rl route_key feedback.bucket_remap refl
          (λ routes. refl) in
      apply_scope-AllQuota rl' feedback.scope route_key (resolve_bucket_key rl' route_key) now
        (add_duration now (backoff_of feedback)) (subst (λ m. IsDistinct (keys m)) (sym same) d)
        (subst (AllQuota max) (sym same) h)
