-- ===== src/Config.antt =====
-- src/config.rs: the limiter's configuration, its constructors and its builder methods.
use shared_rate_limiter.Base.{ℕ, ◌<◌, ◌≤◌, Option, none, some, if◌then◌else◌, ◌==◌, Result, ok, err}
use shared_rate_limiter.Word.{u32_max, u64_max, duration_max}
use shared_rate_limiter.Types.{Duration}

-- src/slow_start.rs: the ramp's length.
pub record SlowStart : Type 0 where
  pub ramp : Duration

pub data AlgorithmConfig : Type 0 where
  -- `max_per_window` and `window`.
  fixed_window : ℕ → Duration → AlgorithmConfig
  -- `capacity` and `refill_per_sec`.
  token_bucket : ℕ → ℕ → AlgorithmConfig

pub data OverflowPolicy : Type 0 where
  deny_new_key evict_oldest_key : OverflowPolicy

pub data ConfigError : Type 0 where
  zero_window : ConfigError

pub record Config : Type 0 where
  pub algorithm : AlgorithmConfig
  pub max_keys : Option ℕ
  pub overflow_policy : OverflowPolicy
  pub slow_start : Option SlowStart

unfoldable pub fixed_window_bounded : ℕ → Duration → Option ℕ → Result Config ConfigError
fixed_window_bounded max_per_window window max_keys =
    if window == 0
    then err zero_window
    else ok (record {
      algorithm = AlgorithmConfig.fixed_window max_per_window window;
      max_keys = max_keys;
      overflow_policy = deny_new_key;
      slow_start = none;
    })

unfoldable pub fixed_window_config : ℕ → Duration → Result Config ConfigError
unfolding fixed_window_bounded
fixed_window_config max_per_window window = fixed_window_bounded max_per_window window none

unfoldable pub token_bucket_config : ℕ → ℕ → Config
token_bucket_config capacity refill_per_sec = record {
  algorithm = AlgorithmConfig.token_bucket capacity refill_per_sec;
  max_keys = none;
  overflow_policy = deny_new_key;
  slow_start = none;
}

unfoldable pub with_max_keys : Config → Option ℕ → Config
with_max_keys c max_keys = record c { max_keys = max_keys }

unfoldable pub with_slow_start : Config → SlowStart → Config
with_slow_start c slow = record c { slow_start = some slow }

unfoldable pub with_overflow_policy : Config → OverflowPolicy → Config
with_overflow_policy c policy = record c { overflow_policy = policy }

-- 0 for a token bucket.
unfoldable pub window_of : AlgorithmConfig → Duration
window_of (AlgorithmConfig.fixed_window max_per_window window) = window
window_of (AlgorithmConfig.token_bucket capacity refill_per_sec) = 0

unfoldable pub max_per_window_of : AlgorithmConfig → ℕ
max_per_window_of (AlgorithmConfig.fixed_window max_per_window window) = max_per_window
max_per_window_of (AlgorithmConfig.token_bucket capacity refill_per_sec) = 0

-- The ranges of the machine types, and the window that the constructors insist on.
abbrev pub IsAlgorithm : AlgorithmConfig → Type 0
IsAlgorithm (AlgorithmConfig.fixed_window max_per_window window) =
    (max_per_window ≤ u32_max) × (0 < window) × (window ≤ duration_max)
IsAlgorithm (AlgorithmConfig.token_bucket capacity refill_per_sec) =
    (capacity ≤ u64_max) × (refill_per_sec ≤ u64_max)
