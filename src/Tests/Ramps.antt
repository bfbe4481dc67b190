-- ===== src/Tests/Ramps.antt =====
-- A ramp of ten seconds of src/slow_start.rs, and windows of ten seconds of src/bucket.rs.
use shared_rate_limiter.Base.{◌*◌, ◌+◌, ◌%◌, ◌≤◌, ◌<◌, ◌≡◌, ◌↔◌, refl, arith}
use shared_rate_limiter.Types.{Duration}
use shared_rate_limiter.Config.{SlowStart}
use shared_rate_limiter.SlowStart.{
  effective_max, effective_u64, retry_after_for_cost, retry_after_for_cost_u64,
}
use shared_rate_limiter.SlowStart.Ramp.{effective_max_mono, retry_after_for_cost-least}
use shared_rate_limiter.SlowStart.Wide.{wide-eq}
use shared_rate_limiter.FixedWindow.{window_start_for}
use shared_rate_limiter.FixedWindow.Alignment.{window_start_for_aligned}

abbrev seconds : Duration
seconds = 1000000000

abbrev slow : SlowStart
slow = record { ramp = 10 * seconds }

effective_max_mono_example :
    (effective_max 8 slow 0 (3 * seconds) ≤ effective_max 8 slow 0 (7 * seconds))
    × (effective_max 8 slow 0 (7 * seconds) ≤ 8)
    × (effective_max 8 slow 0 (0 + 10 * seconds + 7 * seconds) ≡ 8)
effective_max_mono_example =
    effective_max_mono 8 slow 0 (3 * seconds) (7 * seconds) (omega arith) (omega arith)

retry_after_for_cost-least_example :
    (3 ≤ effective_max 8 slow 0 (1 * seconds + 3 * seconds))
    ↔ (retry_after_for_cost 8 slow 0 (1 * seconds) 3 ≤ 3 * seconds)
retry_after_for_cost-least_example =
    retry_after_for_cost-least 8 slow 0 (1 * seconds) 3 (3 * seconds) (omega arith) (omega arith)
      (omega arith) (omega arith) (omega arith) (omega arith)

wide-eq_example :
    (effective_u64 8 slow 0 (3 * seconds) ≡ effective_max 8 slow 0 (3 * seconds))
    × (retry_after_for_cost_u64 8 slow 0 (3 * seconds) 5
        ≡ retry_after_for_cost 8 slow 0 (3 * seconds) 5)
wide-eq_example = wide-eq 8 slow 0 (3 * seconds) 5 (omega arith) (omega arith) (omega arith)

aligned_13 : window_start_for (13 * seconds) (10 * seconds) ≡ 10 * seconds
unfolding window_start_for
aligned_13 = refl

window_start_for_aligned_example :
    (window_start_for (13 * seconds) (10 * seconds) % (10 * seconds) ≡ 0)
    × (window_start_for (13 * seconds) (10 * seconds) ≤ 13 * seconds)
    × (13 * seconds < window_start_for (13 * seconds) (10 * seconds) + 10 * seconds)
    × (window_start_for (17 * seconds) (10 * seconds)
        ≡ window_start_for (13 * seconds) (10 * seconds))
window_start_for_aligned_example =
    window_start_for_aligned (13 * seconds) (10 * seconds) (17 * seconds) (omega arith)
      (omega arith) (omega arith) (omega (arith, aligned_13)) (omega (arith, aligned_13))
