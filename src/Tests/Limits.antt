-- ===== src/Tests/Limits.antt =====
-- Limits of src/limiter.rs and src/bucket.rs that change: a window that ends, a ramp, a new configuration.
use shared_rate_limiter.Base.{
  nat_eq, ◌*◌, ◌+◌, ◌≡◌, ◌≢◌, ◌⊎◌, ◌↔◌, ◌≤◌, refl, subst, sym, arith, none, some, ok, err, false,
  is_err, [],
}
use shared_rate_limiter.Types.{Permit, PermitMeta}
use shared_rate_limiter.Config.{AlgorithmConfig, Config, SlowStart, deny_new_key}
use shared_rate_limiter.SlowStart.{effective_max}
use shared_rate_limiter.FixedWindow
use shared_rate_limiter.FixedWindow.{FixedWindowState}
use shared_rate_limiter.Bucket
use shared_rate_limiter.Bucket.{AlgoState, BucketState, BucketDeny, window_exhausted}
use shared_rate_limiter.Bucket.Update.{KeepsShape}
use shared_rate_limiter.Bucket.Retry.{window_retry_after-least}
use shared_rate_limiter.Limiter.State.{RateLimiter, new_at, resolve_bucket_key}
use shared_rate_limiter.Limiter.Acquire.{try_acquire}
use shared_rate_limiter.HashMap
use shared_rate_limiter.FixedWindow.{maybe_reset_window}
use shared_rate_limiter.Limiter.Finalize.{refund}
use shared_rate_limiter.Limiter.Keys.{put_bucket}
use shared_rate_limiter.Limiter.Undo.{refund-try_acquire}
use shared_rate_limiter.Limiter.Update.{update_config}
use shared_rate_limiter.Limiter.Rejecting.{Accepts, Rejects, update_config-Answers}
use shared_rate_limiter.Limiter.Easing.{ReservesIn, try_acquire-ReservesIn}
use shared_rate_limiter.Tests.Calls.{
  holding, reserving, held_there, routed, seconds, cfg, two, two-IsCost, acquired, Reach-acquired,
}

-- A window that is spent, with a backoff that has ended.
abbrev exhausted : FixedWindowState
exhausted = record { window_start = 0; reserved = 0; spent = 4 }

abbrev idle : BucketState
idle = record { blocked = some 2; algo = AlgoState.fixed_window exhausted }

abbrev waits : BucketDeny
waits = record { deny = record { retry_after = 7 * seconds }; reason = window_exhausted }

idle_denies :
    (Bucket.try_reserve idle 7 (AlgorithmConfig.fixed_window 5 (10 * seconds)) two (3 * seconds)).0
    ≡ err waits
unfolding Bucket.try_reserve FixedWindow.window_start_for
idle_denies = refl

window_retry_after-least_example :
    let algo = AlgorithmConfig.fixed_window 5 (10 * seconds) in
    (is_err
        (Bucket.try_reserve
          (Bucket.try_reserve idle 7 algo two (3 * seconds)).1
          7
          algo
          two
          (3 * seconds + 8 * seconds)).0
      ≡ false)
    ↔ (7 * seconds ≤ 8 * seconds)
window_retry_after-least_example =
    window_retry_after-least idle exhausted 7 5 (10 * seconds) two (3 * seconds) (8 * seconds)
      two-IsCost (omega arith) refl refl idle_denies refl

-- A longer window, while a permit is out.
abbrev longer : Config
longer = record {
  algorithm = AlgorithmConfig.fixed_window 5 (20 * seconds);
  max_keys = none;
  overflow_policy = deny_new_key;
  slow_start = none;
}

update_config-Answers_example :
    (((acquired.outstanding ≡ []) ⊎ KeepsShape acquired.limiter.cfg.algorithm longer.algorithm)
      × Accepts acquired.limiter longer (update_config acquired.limiter longer 5))
    ⊎ ((acquired.outstanding ≢ [])
        × (¬ KeepsShape acquired.limiter.cfg.algorithm longer.algorithm)
        × Rejects acquired.limiter longer (update_config acquired.limiter longer 5))
update_config-Answers_example =
    update_config-Answers cfg 0 longer 5 (omega arith, omega arith, omega arith) Reach-acquired

-- A ramp of ten seconds, of which five have gone.
abbrev slow : SlowStart
slow = record { ramp = 10 * seconds }

abbrev ramped : RateLimiter
ramped = new_at (record cfg { slow_start = some slow }) 0

abbrev eased : Permit
eased = record {
  key = 7;
  cost = two;
  window_start = 0;
  issued_at = 5 * seconds;
  deadline = 10 * seconds;
  meta = PermitMeta.fixed_window 0;
}

ramped_grants : (try_acquire ramped 7 two (5 * seconds)).0 ≡ ok eased
unfolding try_acquire new_at FixedWindow.window_start_for effective_max
ramped_grants = refl

ramped_algorithm : ramped.cfg.algorithm ≡ AlgorithmConfig.fixed_window 5 (10 * seconds)
unfolding new_at
ramped_algorithm = refl

ramped_start : ramped.cfg.slow_start ≡ some slow
unfolding new_at
ramped_start = refl

try_acquire-ReservesIn_example :
    ReservesIn
      (effective_max 5 slow ramped.started_at (5 * seconds))
      (resolve_bucket_key ramped 7)
      two
      eased
      (try_acquire ramped 7 two (5 * seconds)).1
try_acquire-ReservesIn_example =
    try_acquire-ReservesIn ramped 5 (10 * seconds) slow 7 two (5 * seconds) ramped_algorithm
      ramped_start (omega arith) two-IsCost ramped_grants

-- A second permit of the window, given back at once.
abbrev again : Permit
again = record {
  key = 7;
  cost = two;
  window_start = 0;
  issued_at = 4;
  deadline = 10 * seconds;
  meta = PermitMeta.fixed_window 0;
}

again_grants : (try_acquire acquired.limiter 7 two 4).0 ≡ ok again
unfolding try_acquire new_at FixedWindow.window_start_for resolve_bucket_key
again_grants = refl

windowed : acquired.limiter.cfg.algorithm ≡ AlgorithmConfig.fixed_window 5 (10 * seconds)
unfolding try_acquire new_at FixedWindow.window_start_for
windowed = refl

refund-try_acquire_example :
    refund (try_acquire acquired.limiter 7 two 4).1 again 4
    ≡ put_bucket acquired.limiter (resolve_bucket_key acquired.limiter 7) (record {
      blocked = none;
      algo = AlgoState.fixed_window (maybe_reset_window reserving 4 (10 * seconds));
    })
refund-try_acquire_example =
    refund-try_acquire acquired.limiter holding reserving 5 (10 * seconds) 7 two 4 windowed
      (omega arith) two-IsCost
      (subst (λ k. HashMap.lookup k acquired.limiter.buckets ≡ some holding) (sym routed)
        held_there)
      refl again_grants
