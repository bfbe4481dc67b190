-- ===== src/Limiter/Update.antt =====
-- src/limiter.rs: `update_config` and `update_config_unchecked`.
use shared_rate_limiter.Base.{
  nat_eq, Bool, not, if◌then◌else◌, ◌==◌, Option, none, some, Result, ok, err,
}
use shared_rate_limiter.Types.{Duration}
use shared_rate_limiter.Config.{Config, AlgorithmConfig}
use shared_rate_limiter.HashMap
use shared_rate_limiter.HashMap.{HashMap}
use shared_rate_limiter.Bucket
use shared_rate_limiter.Bucket.{BucketState, BucketDeny, BucketDenyReason, remaining_block}
use shared_rate_limiter.Limiter.State.{
  UpdateConfigErrorKind, UpdateConfigError, RateLimiter, algorithm_changed,
  fixed_window_window_changed,
}

-- The match of `update_config`: why a change needs all permits finalized.
unfoldable pub requires_no_outstanding :
    AlgorithmConfig → AlgorithmConfig → Option UpdateConfigErrorKind
requires_no_outstanding (AlgorithmConfig.fixed_window _ old_w)
      (AlgorithmConfig.fixed_window _ new_w) =
    if not (old_w == new_w) then some fixed_window_window_changed else none
requires_no_outstanding (AlgorithmConfig.token_bucket _ _) (AlgorithmConfig.token_bucket _ _) = none
requires_no_outstanding _ _ = some algorithm_changed

unfoldable pub any_outstanding : RateLimiter → Bool
unfolding HashMap.any_value Bucket.has_outstanding
any_outstanding rl = HashMap.any_value Bucket.has_outstanding rl.buckets

unfoldable pub update_config_unchecked : RateLimiter → Config → Duration → RateLimiter
unfolding HashMap.map_values Bucket.on_update
update_config_unchecked rl new_cfg now = record rl {
  cfg = new_cfg;
  buckets =
      HashMap.map_values (λ b. Bucket.on_update b rl.cfg.algorithm new_cfg.algorithm now)
        rl.buckets;
}

unfoldable pub update_config :
    RateLimiter → Config → Duration → Result (Unit {0}) UpdateConfigError × RateLimiter
unfolding requires_no_outstanding any_outstanding update_config_unchecked
update_config rl new_cfg now =
    let updated = update_config_unchecked rl new_cfg now in
    elim (requires_no_outstanding rl.cfg.algorithm new_cfg.algorithm) [
      | some kind ↦
          if any_outstanding rl then (err (record { kind = kind }), rl) else (ok tt, updated)
      | none ↦ (ok tt, updated)
    ]
