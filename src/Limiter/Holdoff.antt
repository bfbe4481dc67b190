-- ===== src/Limiter/Holdoff.antt =====
-- A feedback for one key in src/limiter.rs, and the attempts on the key before the end of its backoff.
use shared_rate_limiter.Base.{
  nat_eq, ◌≤◌, ◌<◌, ◌≡◌, ◌≢◌, refl, sym, ap, ◌∙◌, subst, inl, inr, Option, none, some, Option-cases,
  arith,
}
use shared_rate_limiter.Word.{add_duration}
use shared_rate_limiter.Types.{Key, Duration, Permit, rate_limited_feedback, Scope}
use shared_rate_limiter.Cost.{Cost}
use shared_rate_limiter.Feedback.{RateLimitFeedback, FeedbackScope}
use shared_rate_limiter.HashMap
use shared_rate_limiter.HashMap.Laws.{lookup-insert_self}
use shared_rate_limiter.Bucket
use shared_rate_limiter.Bucket.{BucketState}
use shared_rate_limiter.Bucket.Backoff.{ends, apply_blocked_until-reaches}
use shared_rate_limiter.Limiter.State.{RateLimiter, resolve_bucket_key}
use shared_rate_limiter.Limiter.Keys.{bucket_entry, put_bucket}
use shared_rate_limiter.Limiter.Acquire.{try_acquire}
use shared_rate_limiter.Limiter.Feedback.{
  remap_route, apply_scope, block_bucket, backoff_of, apply_feedback,
}
use shared_rate_limiter.Limiter.Finalize.{commit}
use shared_rate_limiter.Limiter.Remap.{remap-cases}
use shared_rate_limiter.Limiter.Settings.{
  try_acquire_cfg, commit_cfg, refund_cfg, apply_feedback_cfg,
}
use shared_rate_limiter.Limiter.Throttling.{Denied, committed_bucket, try_acquire-Denied}
use shared_rate_limiter.Limiter.Room.{unbounded_block}
use shared_rate_limiter.Limiter.Lasting.{
  Held, IsBackedOff, try_acquire-IsBackedOff, commit-IsBackedOff, refund-IsBackedOff,
  apply_feedback-IsBackedOff, Lasts, update_config-Lasts,
}
use shared_rate_limiter.Limiter.History.{
  World, Step, Reach, acquires, commits, refunds, feeds, updates, here, next,
}

-- A feedback that starts a backoff of the key, until `until`: a commit of a permit of the key, where its
-- bucket is there, or a feedback on a route that has the key behind the remap.
pub data Begins (until : Duration) (k : Key) (rl' : RateLimiter) : Type 0 where
  by_commit :
      (rl : RateLimiter) (p : Permit) (b : BucketState) (retry_after : Duration) (hint : Option Key)
      (now : Duration)
      → HashMap.lookup p.key rl.buckets ≡ some b
      → p.key ≡ k
      → until ≡ add_duration now retry_after
      → rl' ≡ commit rl p (rate_limited_feedback retry_after Scope.key hint) now
      → Begins until k rl'
  by_feedback :
      (rl : RateLimiter) (route_key : Key) (feedback : RateLimitFeedback) (now : Duration)
      → feedback.scope ≢ FeedbackScope.global
      → resolve_bucket_key (remap_route rl route_key feedback.bucket_remap).1 route_key ≡ k
      → until ≡ add_duration now (backoff_of feedback)
      → rl' ≡ apply_feedback rl route_key feedback now
      → Begins until k rl'

blocked-IsBackedOff :
    (rl : RateLimiter) (route_key i : Key) (now until : Duration)
    → rl.cfg.max_keys ≡ none
    → IsBackedOff until i (block_bucket rl route_key i now until)
unfolding put_bucket
blocked-IsBackedOff rl route_key i now until unbounded =
    let (b, rl') = bucket_entry rl i now in
    subst (IsBackedOff until i) (sym (unbounded_block rl route_key i now until unbounded)) (
      rw (lookup-insert_self i (Bucket.apply_blocked_until b until) rl'.buckets)
        (apply_blocked_until-reaches until b))

scoped-IsBackedOff :
    (rl : RateLimiter) (scope : FeedbackScope) (route_key i : Key) (now until : Duration)
    → rl.cfg.max_keys ≡ none
    → scope ≢ FeedbackScope.global
    → IsBackedOff until i (apply_scope rl scope route_key i now until)
unfolding apply_scope
scoped-IsBackedOff rl FeedbackScope.global route_key i now until unbounded local =
    absurd (local refl)
scoped-IsBackedOff rl FeedbackScope.key route_key i now until unbounded local =
    blocked-IsBackedOff rl route_key i now until unbounded
scoped-IsBackedOff rl FeedbackScope.route route_key i now until unbounded local =
    blocked-IsBackedOff rl route_key i now until unbounded

Begins-IsBackedOff :
    (until : Duration) (k : Key) (rl' : RateLimiter)
    → rl'.cfg.max_keys ≡ none
    → Begins until k rl'
    → IsBackedOff until k rl'
unfolding apply_feedback
Begins-IsBackedOff until k rl' unbounded (by_commit rl p b retry_after hint now there key end is) =
    let (b', found, long) = committed_bucket rl p b retry_after hint now there in
    subst (IsBackedOff until k) (sym is) (
      subst
        (λ j. Held until (
          HashMap.lookup j
            (commit rl p (rate_limited_feedback retry_after Scope.key hint) now).buckets))
        key (rw found (rw end long)))
Begins-IsBackedOff until k rl' unbounded (by_feedback rl route_key feedback now local key end is) =
    let r = (remap_route rl route_key feedback.bucket_remap).1 in
    let free : rl.cfg.max_keys ≡ none =
      ap (λ c. c.max_keys)
        (sym (apply_feedback_cfg rl route_key feedback now) ∙ ap (λ x. x.cfg) (sym is))
      ∙ unbounded in
    let free' : r.cfg.max_keys ≡ none =
      remap-cases (λ x. x.cfg.max_keys ≡ none) rl route_key feedback.bucket_remap free
        (λ routes. free) in
    subst (IsBackedOff until k) (sym is) (
      subst (λ u. IsBackedOff u k (apply_feedback rl route_key feedback now)) (sym end)
        (subst
          (λ j.
            IsBackedOff (add_duration now (backoff_of feedback)) j
              (apply_feedback rl route_key feedback now))
          key
          (scoped-IsBackedOff r feedback.scope route_key (resolve_bucket_key r route_key) now _
            free' local)))

-- The call comes before the end, and an update sets no bound on the keys.
abbrev pub ComesBefore : Duration → {w v : World} → Step w v → Type 0
ComesBefore until (acquires route_key cost now valid fits e) = now < until
ComesBefore until (commits before p after outcome now out e) = now < until
ComesBefore until (refunds before p after now out e) = now < until
ComesBefore until (feeds route_key feedback now e) = Unit
ComesBefore until (updates cfg now valid e) = (cfg.max_keys ≡ none) × (now < until)

abbrev pub AllBefore : Duration → {w v : World} → Reach w v → Type 0
AllBefore until here = Unit
AllBefore until (next r s) = AllBefore until r × ComesBefore until s

module _ (until : Duration) (k : Key) where
  Step-Lasts :
      {w v : World} (s : Step w v)
      → ComesBefore until s
      → Lasts until k w.limiter
      → Lasts until k v.limiter
  Step-Lasts {w} (acquires route_key cost now valid fits e) early l =
      subst (λ u. Lasts until k u.limiter) (sym e)
        (record {
          unbounded =
              ap (λ c. c.max_keys) (try_acquire_cfg w.limiter route_key cost now) ∙ l.unbounded;
          backed_off =
              try_acquire-IsBackedOff until k w.limiter route_key cost now l.unbounded early
                l.backed_off;
        })
  Step-Lasts {w} (commits before p after outcome now out e) early l =
      subst (λ u. Lasts until k u.limiter) (sym e)
        (record {
          unbounded = ap (λ c. c.max_keys) (commit_cfg w.limiter p outcome now) ∙ l.unbounded;
          backed_off = commit-IsBackedOff until k w.limiter p outcome now early l.backed_off;
        })
  Step-Lasts {w} (refunds before p after now out e) early l =
      subst (λ u. Lasts until k u.limiter) (sym e)
        (record {
          unbounded = ap (λ c. c.max_keys) (refund_cfg w.limiter p now) ∙ l.unbounded;
          backed_off = refund-IsBackedOff until k w.limiter p now early l.backed_off;
        })
  Step-Lasts {w} (feeds route_key feedback now e) early l =
      subst (λ u. Lasts until k u.limiter) (sym e)
        (record {
          unbounded =
              ap (λ c. c.max_keys) (apply_feedback_cfg w.limiter route_key feedback now)
              ∙ l.unbounded;
          backed_off =
              apply_feedback-IsBackedOff until k w.limiter route_key feedback now l.unbounded
                l.backed_off;
        })
  Step-Lasts {w} (updates cfg now valid e) (unbounded, early) l =
      subst (λ u. Lasts until k u.limiter) (sym e)
        (update_config-Lasts until k w.limiter cfg now unbounded early l)

  Reach-Lasts :
      {w v : World} (r : Reach w v)
      → AllBefore until r
      → Lasts until k w.limiter
      → Lasts until k v.limiter
  Reach-Lasts here early l = l
  Reach-Lasts (next r s) (before, early) l = Step-Lasts s early (Reach-Lasts r before l)

held-Denied :
    (until : Duration) (k : Key) (rl : RateLimiter) (route_key : Key) (cost : Cost) (now : Duration)
    → IsBackedOff until k rl
    → resolve_bucket_key rl route_key ≡ k
    → now < until
    → Denied (try_acquire rl route_key cost now).0
held-Denied until k rl route_key cost now h routed early =
    elim (Option-cases (HashMap.lookup k rl.buckets)) [
      | inl gone ↦ absurd (subst (Held until) gone h)
      | inr (b, there) ↦
          let long : until ≤ ends b.blocked = subst (Held until) there h in
          try_acquire-Denied rl route_key b cost now
            (ap (λ j. HashMap.lookup j rl.buckets) routed ∙ there) (omega (arith, long, early))
    ]

-- After a feedback for one key, by a commit or by `apply_feedback`, on a limiter without a bound on its
-- keys: whatever calls come before the end of the backoff, on whatever keys, where an update sets no
-- bound, every attempt on a route of the key before the end is denied. No later feedback makes the
-- backoff shorter.
pub backoff_lasts :
    (until : Duration) (k : Key) {w v : World} (route_key : Key) (cost : Cost) (now : Duration)
    → Begins until k w.limiter
    → w.limiter.cfg.max_keys ≡ none
    → (r : Reach w v) → AllBefore until r
    → resolve_bucket_key v.limiter route_key ≡ k
    → now < until
    → Denied (try_acquire v.limiter route_key cost now).0
backoff_lasts until k {w} {v} route_key cost now begins unbounded r before routed early =
    let l : Lasts until k w.limiter = record {
      unbounded = unbounded;
      backed_off = Begins-IsBackedOff until k w.limiter unbounded begins;
    } in
    held-Denied until k v.limiter route_key cost now (Reach-Lasts until k r before l).backed_off
      routed early
