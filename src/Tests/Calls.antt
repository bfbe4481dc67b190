-- ===== src/Tests/Calls.antt =====
-- Calls on a limiter of src/limiter.rs with a window of ten seconds.
use shared_rate_limiter.Base.{nat_eq, ◌≢◌, ◌*◌, ◌≡◌, refl, arith, none, some, ok, err, [], ◌∷◌}
use shared_rate_limiter.Types.{Duration, Permit, PermitMeta, confirmed}
use shared_rate_limiter.Cost.{Cost, IsCost}
use shared_rate_limiter.Config.{AlgorithmConfig, Config, evict_oldest_key}
use shared_rate_limiter.Feedback
use shared_rate_limiter.Feedback.{FeedbackScope, RateLimitFeedback}
use shared_rate_limiter.Bucket
use shared_rate_limiter.Bucket.{AlgoState, BucketState, BucketDenyReason}
use shared_rate_limiter.Bucket.Overdue.{try_reserve_overdue}
use shared_rate_limiter.FixedWindow
use shared_rate_limiter.FixedWindow.{FixedWindowState}
use shared_rate_limiter.Limiter.State.{new_at, resolve_bucket_key}
use shared_rate_limiter.Limiter.Acquire.{try_acquire}
use shared_rate_limiter.Limiter.Feedback.{apply_feedback, remap_route}
use shared_rate_limiter.Limiter.Finalize.{commit, refund}
use shared_rate_limiter.Limiter.History.{
  World, start, acquires, commits, Reach, here, next, IsSound, Reach-IsSound,
}
use shared_rate_limiter.Limiter.Tracking.{IsTracked}
use shared_rate_limiter.Limiter.Cardinality.{calls-IsTracked}
use shared_rate_limiter.Limiter.Counting.{HasWindow, committed, commit_counts}
use shared_rate_limiter.Limiter.Isolation.{Apart, try_acquire-Apart}
use shared_rate_limiter.HashMap
use shared_rate_limiter.HashMap.{keys}
use shared_rate_limiter.HashMap.Laws.{IsDistinct}
use shared_rate_limiter.Limiter.Scoping.{apply_feedback-Apart}
use shared_rate_limiter.Limiter.Reporting.{Heard, try_acquire-Heard}

abbrev pub seconds : Duration
seconds = 1000000000

abbrev pub cfg : Config
cfg = record {
  algorithm = AlgorithmConfig.fixed_window 5 (10 * seconds);
  max_keys = some 2;
  overflow_policy = evict_oldest_key;
  slow_start = none;
}

abbrev pub two : Cost
two = record { raw = 2 }

pub two-IsCost : IsCost two
two-IsCost = record { nonzero = omega arith; fits = omega arith }

abbrev pub granted : Permit
granted = record {
  key = 7;
  cost = two;
  window_start = 0;
  issued_at = 3;
  deadline = 10 * seconds;
  meta = PermitMeta.fixed_window 0;
}

abbrev pub acquired : World
acquired = record { limiter = (try_acquire (new_at cfg 0) 7 two 3).1; outstanding = granted ∷ [] }

pub try_acquire_grants : (try_acquire (new_at cfg 0) 7 two 3).0 ≡ ok granted
unfolding try_acquire new_at FixedWindow.window_start_for
try_acquire_grants = refl

pub Reach-acquired : Reach (start cfg 0) acquired
Reach-acquired = next here (acquires 7 two 3 two-IsCost (omega arith) (rw try_acquire_grants refl))

new-IsTracked : IsTracked (new_at cfg 0)
unfolding new_at
new-IsTracked = record { queued = refl; distinct = tt; bounded = omega arith }

abbrev committed_world : World
committed_world = record { limiter = commit acquired.limiter granted confirmed 4; outstanding = [] }

-- The calls: 2 of 5 are reserved, and committed.
Reach-IsSound_example : IsSound committed_world
Reach-IsSound_example =
    Reach-IsSound cfg 0 (omega arith, omega arith, omega arith)
      (next Reach-acquired (commits [] granted [] confirmed 4 refl refl))

commit_counts_example :
    (s : FixedWindowState) × HasWindow acquired.limiter 7 s
    × (granted.meta ≡ PermitMeta.fixed_window s.window_start)
    × HasWindow
        (commit acquired.limiter granted confirmed (25 * seconds))
        7
        (committed s granted confirmed)
unfolding try_acquire new_at FixedWindow.window_start_for
commit_counts_example =
    commit_counts cfg 0 [] granted [] 5 (10 * seconds) confirmed (25 * seconds)
      (omega arith, omega arith, omega arith) Reach-acquired refl refl

calls-IsTracked_example :
    IsTracked (new_at cfg 0)
    × IsTracked (try_acquire (new_at cfg 0) 7 two 3).1
    × IsTracked (apply_feedback (new_at cfg 0) 7 (Feedback.new 5 FeedbackScope.key) 3)
    × IsTracked (commit (new_at cfg 0) granted confirmed 3)
    × IsTracked (refund (new_at cfg 0) granted 3)
calls-IsTracked_example =
    calls-IsTracked cfg 0 (new_at cfg 0) 7 two (Feedback.new 5 FeedbackScope.key) granted confirmed
      3 new-IsTracked

try_acquire-Heard_example :
    Heard acquired.limiter 7
      (record { raw = 4 })
      5
      (try_acquire acquired.limiter 7 (record { raw = 4 }) 5)
try_acquire-Heard_example = try_acquire-Heard acquired.limiter 7 (record { raw = 4 }) 5

abbrev back_off : RateLimitFeedback
back_off = record {
  retry_after = 30 * seconds;
  scope = FeedbackScope.global;
  remaining = none;
  reset_after = none;
  bucket_remap = none;
}

abbrev spent_window : FixedWindowState
spent_window = record { window_start = 0; reserved = 2; spent = 3 }

-- Its backoff has ended.
abbrev late : BucketState
late = record { blocked = some 5; algo = AlgoState.fixed_window spent_window }

try_reserve_overdue_example :
    Bucket.try_reserve late 7 (AlgorithmConfig.fixed_window 5 (10 * seconds)) two (99 * seconds) ≡ (
      err (record {
        deny = record { retry_after = 0 };
        reason = BucketDenyReason.window_exhausted;
      }),
      record { blocked = none; algo = AlgoState.fixed_window spent_window },
    )
try_reserve_overdue_example =
    try_reserve_overdue late spent_window 7 5 (10 * seconds) two (99 * seconds) refl (omega arith)
      two-IsCost (omega arith) (omega arith) (omega arith) (omega arith) (omega arith) (omega arith)

unrouted : resolve_bucket_key acquired.limiter 8 ≡ 8
unfolding resolve_bucket_key try_acquire new_at FixedWindow.window_start_for
unrouted = refl

try_acquire-Apart_example : Apart acquired.limiter 7 (try_acquire acquired.limiter 8 two 5).1
try_acquire-Apart_example =
    try_acquire-Apart acquired.limiter 8 7 two 5
      (Reach-IsSound cfg 0 (omega arith, omega arith, omega arith) Reach-acquired).accounts.distinct
      (omega (arith, unrouted))

abbrev pub holding : BucketState
holding = record {
  blocked = none;
  algo = AlgoState.fixed_window (record { window_start = 0; spent = 0; reserved = 2 });
}

pub held_there : HashMap.lookup 7 acquired.limiter.buckets ≡ some holding
unfolding try_acquire new_at FixedWindow.window_start_for
held_there = refl

pub routed : resolve_bucket_key acquired.limiter 7 ≡ 7
unfolding try_acquire new_at resolve_bucket_key FixedWindow.window_start_for
routed = refl

abbrev pub reserving : FixedWindowState
reserving = record { window_start = 0; spent = 0; reserved = 2 }

one_bucket : IsDistinct (keys acquired.limiter.buckets)
unfolding try_acquire new_at FixedWindow.window_start_for
one_bucket = (tt, tt)

other_route :
    resolve_bucket_key
      (remap_route acquired.limiter 7 (Feedback.new 5 FeedbackScope.key).bucket_remap).1
      7
    ≢ 8
unfolding try_acquire new_at resolve_bucket_key FixedWindow.window_start_for remap_route
    Feedback.new
other_route e = omega (arith, e)

apply_feedback-Apart_example :
    Apart acquired.limiter 8
      (apply_feedback acquired.limiter 7 (Feedback.new 5 FeedbackScope.key) 9)
apply_feedback-Apart_example =
    apply_feedback-Apart acquired.limiter 7 8 (Feedback.new 5 FeedbackScope.key) 9 one_bucket
      other_route
