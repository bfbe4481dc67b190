-- ===== src/Limiter/Lasting.antt =====
-- The backoff of one key in src/limiter.rs, over each call alone, in a limiter without a bound on its keys.
use shared_rate_limiter.Base.{nat_eq, ◌≤◌, ◌<◌, ◌≡◌, Option, none, some}
use shared_rate_limiter.Types.{Key, Duration, Permit, Outcome}
use shared_rate_limiter.Cost.{Cost}
use shared_rate_limiter.Config.{Config}
use shared_rate_limiter.Feedback.{RateLimitFeedback}
use shared_rate_limiter.HashMap
use shared_rate_limiter.Bucket.{BucketState}
use shared_rate_limiter.Bucket.Backoff.{
  ends, try_reserve-ends, refund-ends, commit-ends, apply_blocked_until-ends, on_update-ends,
}
use shared_rate_limiter.Limiter.State.{RateLimiter}
use shared_rate_limiter.Limiter.Ramp.{effective_algorithm}
use shared_rate_limiter.Limiter.Acquire.{try_acquire}
use shared_rate_limiter.Limiter.Feedback.{apply_feedback}
use shared_rate_limiter.Limiter.Finalize.{commit, refund}
use shared_rate_limiter.Limiter.Update.{update_config_unchecked, update_config}
use shared_rate_limiter.Limiter.Frame.{
  try_acquire-P, commit-P, refund-P, apply_feedback-P, updated-P, update_config-cases,
}

-- The bucket of a key is there, with a backoff that ends at `until` or later.
abbrev pub Held : Duration → Option BucketState → Type 0
Held until none = ⊥
Held until (some b) = until ≤ ends b.blocked

abbrev pub IsBackedOff : Duration → Key → RateLimiter → Type 0
IsBackedOff until k rl = Held until (HashMap.lookup k rl.buckets)

module _ (until : Duration) (k : Key) where
  pub try_acquire-IsBackedOff :
      (rl : RateLimiter) (route_key : Key) (cost : Cost) (now : Duration)
      → rl.cfg.max_keys ≡ none
      → now < until
      → IsBackedOff until k rl
      → IsBackedOff until k (try_acquire rl route_key cost now).1
  try_acquire-IsBackedOff rl route_key cost now unbounded early =
      try_acquire-P k (Held until) rl route_key cost now unbounded (λ h. absurd h)
        (λ b i. try_reserve-ends until b i (effective_algorithm rl now) cost now early)

  pub commit-IsBackedOff :
      (rl : RateLimiter) (p : Permit) (outcome : Outcome) (now : Duration)
      → now < until
      → IsBackedOff until k rl
      → IsBackedOff until k (commit rl p outcome now)
  commit-IsBackedOff rl p outcome now early =
      commit-P k (Held until) rl p outcome now
        (λ algo b same. commit-ends until b p outcome now algo early)

  pub refund-IsBackedOff :
      (rl : RateLimiter) (p : Permit) (now : Duration)
      → now < until
      → IsBackedOff until k rl
      → IsBackedOff until k (refund rl p now)
  refund-IsBackedOff rl p now early =
      refund-P k (Held until) rl p now (λ b. refund-ends until b p now rl.cfg.algorithm early)

  pub apply_feedback-IsBackedOff :
      (rl : RateLimiter) (route_key : Key) (feedback : RateLimitFeedback) (now : Duration)
      → rl.cfg.max_keys ≡ none
      → IsBackedOff until k rl
      → IsBackedOff until k (apply_feedback rl route_key feedback now)
  apply_feedback-IsBackedOff rl route_key feedback now unbounded =
      apply_feedback-P k (Held until) rl route_key feedback now unbounded (λ h. absurd h)
        (λ b other. apply_blocked_until-ends until b other)

  -- The backoff is there, and no bound on the keys.
  pub record Lasts (rl : RateLimiter) : Type 0 where
    pub unbounded : rl.cfg.max_keys ≡ none
    pub backed_off : IsBackedOff until k rl

  pub update_config-Lasts :
      (rl : RateLimiter) (cfg : Config) (now : Duration)
      → cfg.max_keys ≡ none
      → now < until
      → Lasts rl
      → Lasts (update_config rl cfg now).1
  unfolding update_config_unchecked
  update_config-Lasts rl cfg now unbounded early l =
      update_config-cases (λ r. Lasts r) rl cfg now l
        (record {
          unbounded = unbounded;
          backed_off =
              updated-P k (Held until) rl cfg now
                (λ b. on_update-ends until b rl.cfg.algorithm cfg.algorithm now early) l.backed_off;
        })
