-- ===== src/Limiter/Guarantee.antt =====
-- What the windows of src/limiter.rs have spent and reserved, over a history of calls.
use shared_rate_limiter.Base.{
  nat_eq, ℕ, ◌≤◌, ◌≡◌, sym, subst, inl, inr, Option-cases, ◌==◌, not, ◌&&◌, arith, if-cases,
}
use shared_rate_limiter.Word.{u32_max}
use shared_rate_limiter.Types.{Duration}
use shared_rate_limiter.Config.{Config, AlgorithmConfig, IsAlgorithm}
use shared_rate_limiter.HashMap
use shared_rate_limiter.HashMap.{HashMap}
use shared_rate_limiter.HashMap.Laws.{lookup-map_values}
use shared_rate_limiter.FixedWindow
use shared_rate_limiter.FixedWindow.{FixedWindowState}
use shared_rate_limiter.Bucket
use shared_rate_limiter.Bucket.{BucketState, AlgoState, update_algo, clear_expired_block}
use shared_rate_limiter.Bucket.Quota.{Quota, Below}
use shared_rate_limiter.Limiter.State.{RateLimiter, new_at}
use shared_rate_limiter.Limiter.Update.{update_config, update_config_unchecked}
use shared_rate_limiter.Limiter.Booking.{IsBooked}
use shared_rate_limiter.Limiter.Quota.{AllQuota, new_algo-Quota, try_acquire-AllQuota}
use shared_rate_limiter.Limiter.Settings.{
  try_acquire_cfg, commit_cfg, refund_cfg, apply_feedback_cfg,
}
use shared_rate_limiter.Limiter.Spending.{commit-AllQuota, refund-AllQuota, apply_feedback-AllQuota}
use shared_rate_limiter.Limiter.Frame.{update_config-cases}
use shared_rate_limiter.Limiter.History.{
  World, start, Step, acquires, commits, refunds, feeds, updates, Reach, here, next, IsSound,
  Reach-IsSound,
}

-- The updates of a history configure no more than `max` in a window.
abbrev pub Allows : ℕ → {w v : World} → Step w v → Type 0
Allows max (updates cfg now valid e) = Below max cfg.algorithm
Allows max _ = Unit

abbrev pub AllowsAll : ℕ → {w v : World} → Reach w v → Type 0
AllowsAll max here = Unit
AllowsAll max (next r s) = AllowsAll max r × Allows max s

module _ (max : ℕ) (fits : max ≤ u32_max) where
  update_algo-Quota :
      (state : AlgoState) (old new : AlgorithmConfig) (now : Duration)
      → Quota max state
      → Quota max (update_algo state old new now)
  unfolding update_algo
  update_algo-Quota (AlgoState.fixed_window s) (AlgorithmConfig.fixed_window m old_w)
        (AlgorithmConfig.fixed_window m' new_w) now h =
      if-cases (Quota max) (not (old_w == new_w) && not (FixedWindow.has_outstanding s)) _ _
        (omega (arith, h)) h
  update_algo-Quota (AlgoState.token_bucket s) (AlgorithmConfig.token_bucket c r)
        (AlgorithmConfig.token_bucket c' r') now h =
      tt
  update_algo-Quota state old new now h = new_algo-Quota max now new

  updated-AllQuota :
      (rl : RateLimiter) (cfg : Config) (now : Duration)
      → AllQuota max rl.buckets
      → AllQuota max (update_config_unchecked rl cfg now).buckets
  unfolding update_config_unchecked Bucket.on_update clear_expired_block
  updated-AllQuota rl cfg now h k b found =
      let f : BucketState → BucketState =
        (λ x. Bucket.on_update x rl.cfg.algorithm cfg.algorithm now) in
      let is = lookup-map_values f k rl.buckets in
      elim (Option-cases (HashMap.lookup k rl.buckets)) [
        | inl e ↦ absurd (ground (arith, is, e, found))
        | inr (b₀, e) ↦
            let one : f b₀ ≡ b = ground (arith, is, e, found) in
            subst (λ x. Quota max x.algo) one
              (update_algo-Quota b₀.algo rl.cfg.algorithm cfg.algorithm now (h k b₀ e))
      ]

  -- A limiter whose algorithm and windows are within the maximum.
  pub record Guards (rl : RateLimiter) : Type 0 where
    pub below : Below max rl.cfg.algorithm
    pub quota : AllQuota max rl.buckets

  update_config-Guards :
      (rl : RateLimiter) (cfg : Config) (now : Duration)
      → Below max cfg.algorithm
      → Guards rl
      → Guards (update_config rl cfg now).1
  unfolding update_config_unchecked
  update_config-Guards rl cfg now le g =
      update_config-cases Guards rl cfg now g
        (record { below = le; quota = updated-AllQuota rl cfg now g.quota })

  Step-Guards :
      {w v : World} (s : Step w v) → Allows max s → IsSound w → Guards w.limiter → Guards v.limiter
  Step-Guards {w} (acquires route_key cost now valid room e) a x g =
      subst (λ u. Guards u.limiter) (sym e)
        (record {
          below =
              subst (λ c. Below max c.algorithm)
                (sym (try_acquire_cfg w.limiter route_key cost now)) g.below;
          quota =
              try_acquire-AllQuota max fits w.limiter route_key cost now x.accounts.distinct g.below
                g.quota;
        })
  Step-Guards {w} (commits before p after outcome now out e) a x g =
      subst (λ u. Guards u.limiter) (sym e)
        (record {
          below =
              subst (λ c. Below max c.algorithm) (sym (commit_cfg w.limiter p outcome now)) g.below;
          quota =
              commit-AllQuota max w.limiter before p after outcome now fits
                (subst (IsBooked w.limiter) out x) g.quota;
        })
  Step-Guards {w} (refunds before p after now out e) a x g =
      subst (λ u. Guards u.limiter) (sym e)
        (record {
          below = subst (λ c. Below max c.algorithm) (sym (refund_cfg w.limiter p now)) g.below;
          quota = refund-AllQuota max w.limiter p now fits g.quota;
        })
  Step-Guards {w} (feeds route_key feedback now e) a x g =
      subst (λ u. Guards u.limiter) (sym e)
        (record {
          below =
              subst (λ c. Below max c.algorithm)
                (sym (apply_feedback_cfg w.limiter route_key feedback now)) g.below;
          quota =
              apply_feedback-AllQuota max w.limiter route_key feedback now x.accounts.distinct
                g.quota;
        })
  Step-Guards {w} (updates cfg now valid e) a x g =
      subst (λ u. Guards u.limiter) (sym e) (update_config-Guards w.limiter cfg now a g)

  start-Guards :
      (cfg : Config) (started_at : Duration)
      → Below max cfg.algorithm
      → Guards (start cfg started_at).limiter
  unfolding new_at HashMap.lookup
  start-Guards cfg started_at le = record { below = le; quota = λ k b e. absurd (cc e) }

  pub Reach-Guards :
      (cfg : Config) (started_at : Duration) {w : World}
      → IsAlgorithm cfg.algorithm
      → Below max cfg.algorithm
      → (r : Reach (start cfg started_at) w) → AllowsAll max r
      → Guards w.limiter
  Reach-Guards cfg started_at valid le here a = start-Guards cfg started_at le
  Reach-Guards cfg started_at valid le (next r s) a =
      Step-Guards s a.1 (Reach-IsSound cfg started_at valid r)
        (Reach-Guards cfg started_at valid le r a.0)
