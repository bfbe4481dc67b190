-- ===== src/Limiter/Ramp.antt =====
-- src/limiter.rs: the slow start of the limiter, `effective_algorithm` and `slow_start_pre_deny`.
use shared_rate_limiter.Base.{nat_eq, if◌then◌else◌, leb, ltb, ◌==◌, Option, none, some}
use shared_rate_limiter.Types.{Duration}
use shared_rate_limiter.Cost
use shared_rate_limiter.Cost.{Cost}
use shared_rate_limiter.Config.{AlgorithmConfig, SlowStart}
use shared_rate_limiter.SlowStart.{
  effective_max, effective_u64, retry_after_for_cost, retry_after_for_cost_u64,
}
use shared_rate_limiter.Limiter.State.{RateLimiter}

unfoldable pub scaled : Option SlowStart → AlgorithmConfig → Duration → Duration → AlgorithmConfig
scaled none algo started_at now = algo
scaled (some slow) (AlgorithmConfig.fixed_window max_per_window window) started_at now =
    AlgorithmConfig.fixed_window (effective_max max_per_window slow started_at now) window
scaled (some slow) (AlgorithmConfig.token_bucket capacity refill_per_sec) started_at now =
    AlgorithmConfig.token_bucket (effective_u64 capacity slow started_at now)
      (effective_u64 refill_per_sec slow started_at now)

unfoldable pub effective_algorithm : RateLimiter → Duration → AlgorithmConfig
unfolding scaled
effective_algorithm rl now = scaled rl.cfg.slow_start rl.cfg.algorithm rl.started_at now

-- The match of `slow_start_pre_deny`, at a configured ramp.
unfoldable pub pre_deny :
    SlowStart → Duration → Cost → Duration → AlgorithmConfig → AlgorithmConfig → Option Duration
pre_deny slow started_at cost now (AlgorithmConfig.fixed_window max_cfg _)
      (AlgorithmConfig.fixed_window max_eff _) =
    if max_cfg == 0
    then none
    else if max_eff == 0
    then some (retry_after_for_cost max_cfg slow started_at now (Cost.get cost))
    else if ltb max_eff (Cost.get cost)
    then some (retry_after_for_cost max_cfg slow started_at now (Cost.get cost))
    else none
pre_deny slow started_at cost now (AlgorithmConfig.token_bucket capacity _)
      (AlgorithmConfig.token_bucket cap_eff _) =
    if leb (Cost.get cost) cap_eff
    then none
    else some (retry_after_for_cost_u64 capacity slow started_at now (Cost.get cost))
pre_deny slow started_at cost now _ _ = none

unfoldable pub slow_start_pre_deny :
    RateLimiter → Cost → Duration → AlgorithmConfig → Option Duration
unfolding pre_deny
slow_start_pre_deny rl cost now effective_algo = elim rl.cfg.slow_start [
  | none ↦ none
  | some slow ↦ pre_deny slow rl.started_at cost now rl.cfg.algorithm effective_algo
]
