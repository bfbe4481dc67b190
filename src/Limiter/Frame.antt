-- ===== src/Limiter/Frame.antt =====
-- A condition on the bucket of one key over each call of src/limiter.rs, in a limiter without a bound on
-- its keys: what the calls of src/bucket.rs keep, those of the limiter keep.
use native.Mathlib.Decide.{ℕ_discrete}
use shared_rate_limiter.Base.{
  nat_eq, ◌≡◌, sym, ap, ◌∙◌, subst, inl, inr, Option, none, some, Option-cases, Bool-cases, Result,
  ok, err,
}
use shared_rate_limiter.Types.{Key, Duration, Permit, Deny, Outcome}
use shared_rate_limiter.Cost.{Cost}
use shared_rate_limiter.Config.{Config, AlgorithmConfig}
use shared_rate_limiter.Feedback.{RateLimitFeedback, FeedbackScope}
use shared_rate_limiter.HashMap
use shared_rate_limiter.HashMap.Laws.{lookup-insert_self, lookup-insert_ne, lookup-map_values}
use shared_rate_limiter.Bucket
use shared_rate_limiter.Bucket.{BucketState, BucketDeny, remaining_block}
use shared_rate_limiter.Limiter.State.{RateLimiter, resolve_bucket_key, deny_to}
use shared_rate_limiter.Limiter.Ramp.{effective_algorithm, slow_start_pre_deny}
use shared_rate_limiter.Limiter.Keys.{bucket_entry, put_bucket, with_bucket}
use shared_rate_limiter.Limiter.Acquire.{report, reserve_in_bucket, try_acquire}
use shared_rate_limiter.Limiter.Finalize.{block_on_global, commit, refund}
use shared_rate_limiter.Limiter.Feedback.{
  remap_route, apply_scope, block_bucket, block_global, apply_feedback,
}
use shared_rate_limiter.Limiter.Update.{
  requires_no_outstanding, any_outstanding, update_config_unchecked, update_config,
}
use shared_rate_limiter.Limiter.Remap.{remap-cases}
use shared_rate_limiter.Limiter.Isolation.{block_on_global_buckets}
use shared_rate_limiter.Limiter.Room.{unbounded_room, unbounded_block}

-- To prove something of the limiter that an update leaves: it is taken, or nothing has changed.
pub update_config-cases {ℓ} :
    (P : RateLimiter → Type ℓ) (rl : RateLimiter) (cfg : Config) (now : Duration)
    → P rl
    → P (update_config_unchecked rl cfg now)
    → P (update_config rl cfg now).1
unfolding update_config
update_config-cases P rl cfg now same updated =
    elim (Option-cases (requires_no_outstanding rl.cfg.algorithm cfg.algorithm)) [
      | inl e ↦ rw (e, update_config) updated
      | inr (kind, e) ↦ elim (Bool-cases (any_outstanding rl)) [
        | inl out ↦ rw (e, out, update_config) same
        | inr idle ↦ rw (e, idle, update_config) updated
      ]
    ]

module _ (k : Key) (P : Option BucketState → Type 0) where
  put-P :
      (rl : RateLimiter) (i : Key) (b : BucketState)
      → (i ≡ k → P (some b))
      → P (HashMap.lookup k rl.buckets)
      → P (HashMap.lookup k (put_bucket rl i b).buckets)
  unfolding put_bucket
  put-P rl i b own h = elim (ℕ_discrete i k) [
    | yes same ↦
        subst (λ j. P (HashMap.lookup j (HashMap.insert i b rl.buckets))) same
          (rw (lookup-insert_self i b rl.buckets) (own same))
    | no apart ↦ rw (lookup-insert_ne i k b rl.buckets apart) h
  ]

  found-P :
      (rl : RateLimiter) (i : Key) (o : Option BucketState)
      → HashMap.lookup i rl.buckets ≡ o
      → P (HashMap.lookup k rl.buckets)
      → i ≡ k
      → P o
  found-P rl i o there h same = subst P (ap (λ j. HashMap.lookup j rl.buckets) (sym same) ∙ there) h

  with_bucket-P :
      (rl : RateLimiter) (i : Key) (f : BucketState → BucketState)
      → (i ≡ k → (b : BucketState) → HashMap.lookup i rl.buckets ≡ some b → P (some (f b)))
      → P (HashMap.lookup k rl.buckets)
      → P (HashMap.lookup k (with_bucket rl i f).buckets)
  unfolding with_bucket
  with_bucket-P rl i f keeps h = elim (Option-cases (HashMap.lookup i rl.buckets)) [
    | inl e ↦ rw (e, with_bucket) h
    | inr (b, e) ↦ rw (e, with_bucket) (put-P rl i (f b) (λ same. keeps same b e) h)
  ]

  -- A new bucket keeps what holds of none.
  abbrev Admits : RateLimiter → Duration → Type 0
  Admits rl now = P none → P (some (Bucket.new now rl.cfg.algorithm))

  entry-P :
      (rl : RateLimiter) (i : Key) (now : Duration)
      → Admits rl now
      → P (HashMap.lookup k rl.buckets)
      → (i ≡ k → P (some (bucket_entry rl i now).0))
        × P (HashMap.lookup k (bucket_entry rl i now).1.buckets)
  unfolding bucket_entry put_bucket
  entry-P rl i now admits h = elim (Option-cases (HashMap.lookup i rl.buckets)) [
    | inr (b, e) ↦ rw (e, bucket_entry) (found-P rl i (some b) e h, h)
    | inl e ↦
        let own : i ≡ k → P (some (Bucket.new now rl.cfg.algorithm)) =
          λ same. admits (found-P rl i none e h same) in
        rw (e, bucket_entry) (own, put-P rl i (Bucket.new now rl.cfg.algorithm) own h)
  ]

  report-P :
      (rl : RateLimiter) (route_key i : Key) (cost : Cost) (now : Duration)
      (r : Result Permit BucketDeny)
      → P (HashMap.lookup k rl.buckets)
      → P (HashMap.lookup k (report rl route_key i cost now r).1.buckets)
  unfolding report deny_to
  report-P rl route_key i cost now (ok p) h = h
  report-P rl route_key i cost now (err d) h = h

  reserve-P :
      (rl : RateLimiter) (route_key i : Key) (eff : AlgorithmConfig) (cost : Cost) (now : Duration)
      → Admits rl now
      → ((b : BucketState) → P (some b) → P (some (Bucket.try_reserve b i eff cost now).1))
      → P (HashMap.lookup k rl.buckets)
      → P (HashMap.lookup k (reserve_in_bucket rl route_key i eff cost now).1.buckets)
  unfolding reserve_in_bucket
  reserve-P rl route_key i eff cost now admits keeps h =
      let (b, rl') = bucket_entry rl i now in
      let (own, kept) = entry-P rl i now admits h in
      let r = Bucket.try_reserve b i eff cost now in
      report-P (put_bucket rl' i r.1) route_key i cost now r.0
        (put-P rl' i r.1 (λ same. keeps b (own same)) kept)

  pub try_acquire-P :
      (rl : RateLimiter) (route_key : Key) (cost : Cost) (now : Duration)
      → rl.cfg.max_keys ≡ none
      → Admits rl now
      → ((b : BucketState) (i : Key)
          → P (some b)
          → P (some (Bucket.try_reserve b i (effective_algorithm rl now) cost now).1))
      → P (HashMap.lookup k rl.buckets)
      → P (HashMap.lookup k (try_acquire rl route_key cost now).1.buckets)
  unfolding try_acquire deny_to
  try_acquire-P rl route_key cost now unbounded admits keeps h =
      let i = resolve_bucket_key rl route_key in
      let eff = effective_algorithm rl now in
      elim (Option-cases (remaining_block rl.global_blocked_until now)) [
        | inr (wait, e) ↦ rw (e, try_acquire) h
        | inl unblocked ↦ elim (Option-cases (slow_start_pre_deny rl cost now eff)) [
          | inr (wait, e) ↦ rw (unblocked, e, try_acquire) h
          | inl passes ↦
              rw (unblocked, passes, try_acquire)
                (subst
                  (λ room. P (
                    HashMap.lookup k
                      (elim room.0 as (λ _. Result Permit Deny × RateLimiter) [
                        | err deny ↦ (err deny, room.1)
                        | ok _ ↦ reserve_in_bucket room.1 route_key i eff cost now
                      ]).1.buckets))
                  (sym (unbounded_room rl route_key i cost now unbounded))
                  (reserve-P rl route_key i eff cost now admits (λ b. keeps b i) h))
        ]
      ]

  pub commit-P :
      (rl : RateLimiter) (p : Permit) (outcome : Outcome) (now : Duration)
      → ((algo : AlgorithmConfig) (b : BucketState)
          → p.key ≡ k
          → P (some b)
          → P (some (Bucket.commit b p outcome now algo)))
      → P (HashMap.lookup k rl.buckets)
      → P (HashMap.lookup k (commit rl p outcome now).buckets)
  unfolding commit
  commit-P rl p outcome now keeps h =
      let rl' = block_on_global rl outcome now in
      let h' : P (HashMap.lookup k rl'.buckets) =
        subst (λ m. P (HashMap.lookup k m)) (sym (block_on_global_buckets rl outcome now)) h in
      with_bucket-P rl' p.key _
        (λ same b there. keeps rl'.cfg.algorithm b same (found-P rl' p.key (some b) there h' same))
        h'

  pub refund-P :
      (rl : RateLimiter) (p : Permit) (now : Duration)
      → ((b : BucketState) → P (some b) → P (some (Bucket.refund b p now rl.cfg.algorithm)))
      → P (HashMap.lookup k rl.buckets)
      → P (HashMap.lookup k (refund rl p now).buckets)
  unfolding refund
  refund-P rl p now keeps h =
      with_bucket-P rl p.key _ (λ same b there. keeps b (found-P rl p.key (some b) there h same)) h

  block_bucket-P :
      (rl : RateLimiter) (route_key i : Key) (now until : Duration)
      → rl.cfg.max_keys ≡ none
      → Admits rl now
      → ((b : BucketState) → P (some b) → P (some (Bucket.apply_blocked_until b until)))
      → P (HashMap.lookup k rl.buckets)
      → P (HashMap.lookup k (block_bucket rl route_key i now until).buckets)
  block_bucket-P rl route_key i now until unbounded admits keeps h =
      let (own, kept) = entry-P rl i now admits h in
      subst (λ r. P (HashMap.lookup k r.buckets))
        (sym (unbounded_block rl route_key i now until unbounded))
        (put-P (bucket_entry rl i now).1 i _ (λ same. keeps (bucket_entry rl i now).0 (own same))
          kept)

  apply_scope-P :
      (rl : RateLimiter) (scope : FeedbackScope) (route_key i : Key) (now until : Duration)
      → rl.cfg.max_keys ≡ none
      → Admits rl now
      → ((b : BucketState) → P (some b) → P (some (Bucket.apply_blocked_until b until)))
      → P (HashMap.lookup k rl.buckets)
      → P (HashMap.lookup k (apply_scope rl scope route_key i now until).buckets)
  unfolding apply_scope block_global
  apply_scope-P rl FeedbackScope.global route_key i now until unbounded admits keeps h = h
  apply_scope-P rl FeedbackScope.key route_key i now until unbounded admits keeps h =
      block_bucket-P rl route_key i now until unbounded admits keeps h
  apply_scope-P rl FeedbackScope.route route_key i now until unbounded admits keeps h =
      block_bucket-P rl route_key i now until unbounded admits keeps h

  pub apply_feedback-P :
      (rl : RateLimiter) (route_key : Key) (feedback : RateLimitFeedback) (now : Duration)
      → rl.cfg.max_keys ≡ none
      → Admits rl now
      → ((b : BucketState) (until : Duration)
          → P (some b)
          → P (some (Bucket.apply_blocked_until b until)))
      → P (HashMap.lookup k rl.buckets)
      → P (HashMap.lookup k (apply_feedback rl route_key feedback now).buckets)
  unfolding apply_feedback
  apply_feedback-P rl route_key feedback now unbounded admits keeps h =
      let remapped =
        λ (Q : RateLimiter → Type 0). remap-cases Q rl route_key feedback.bucket_remap in
      let rl' = (remap_route rl route_key feedback.bucket_remap).1 in
      apply_scope-P rl' feedback.scope route_key (resolve_bucket_key rl' route_key) now _
        (remapped (λ r. r.cfg.max_keys ≡ none) unbounded (λ routes. unbounded))
        (remapped (λ r. Admits r now) admits (λ routes. admits)) (λ b. keeps b _)
        (remapped (λ r. P (HashMap.lookup k r.buckets)) h (λ routes. h))

  pub updated-P :
      (rl : RateLimiter) (cfg : Config) (now : Duration)
      → ((b : BucketState)
          → P (some b)
          → P (some (Bucket.on_update b rl.cfg.algorithm cfg.algorithm now)))
      → P (HashMap.lookup k rl.buckets)
      → P (HashMap.lookup k (update_config_unchecked rl cfg now).buckets)
  unfolding update_config_unchecked
  updated-P rl cfg now keeps h =
      let f : BucketState → BucketState =
        (λ b. Bucket.on_update b rl.cfg.algorithm cfg.algorithm now) in
      subst P (sym (lookup-map_values f k rl.buckets)) (go (HashMap.lookup k rl.buckets) h)
    where
      go :
          (o : Option BucketState)
          → P o
          → P (elim o [
            | none ↦ none
            | some b ↦ some (Bucket.on_update b rl.cfg.algorithm cfg.algorithm now)
          ])
      go none h' = h'
      go (some b) h' = keeps b h'
