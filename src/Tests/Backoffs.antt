-- ===== src/Tests/Backoffs.antt =====
-- A backoff of one key of src/limiter.rs, with a shorter feedback and another attempt behind it.
use shared_rate_limiter.Base.{
  is_err, false, ◌+◌, ◌*◌, ◌≡◌, ◌≢◌, refl, arith, none, some, [], nat_eq,
}
use shared_rate_limiter.Word.{add_duration}
use shared_rate_limiter.Types.{Duration}
use shared_rate_limiter.Config.{Config}
use shared_rate_limiter.Feedback.{FeedbackScope, RateLimitFeedback}
use shared_rate_limiter.FixedWindow
use shared_rate_limiter.Limiter.State.{RateLimiter, new_at, resolve_bucket_key}
use shared_rate_limiter.Limiter.Acquire.{try_acquire}
use shared_rate_limiter.Limiter.Feedback.{apply_feedback, backoff_of, remap_route}
use shared_rate_limiter.Limiter.History.{World, here, next, feeds}
use shared_rate_limiter.Limiter.Throttling.{Denied}
use shared_rate_limiter.Limiter.Holdoff.{by_feedback, backoff_lasts}
use shared_rate_limiter.Tests.Calls.{seconds, cfg, two}

abbrev unbounded : Config
unbounded = record cfg { max_keys = none }

abbrev waits_for : Duration → RateLimitFeedback
waits_for retry_after = record {
  retry_after = retry_after;
  scope = FeedbackScope.key;
  remaining = none;
  reset_after = none;
  bucket_remap = none;
}

abbrev scolded : World
scolded = record {
  limiter = apply_feedback (new_at unbounded 0) 7 (waits_for (30 * seconds)) 5;
  outstanding = [];
}

abbrev scolded_again : World
scolded_again = record {
  limiter = apply_feedback scolded.limiter 7 (waits_for seconds) 6;
  outstanding = [];
}

routed_before :
    resolve_bucket_key
      (remap_route (new_at unbounded 0) 7 (waits_for (30 * seconds)).bucket_remap).1
      7
    ≡ 7
unfolding remap_route resolve_bucket_key new_at
routed_before = refl

routed_after : resolve_bucket_key scolded_again.limiter 7 ≡ 7
unfolding remap_route resolve_bucket_key new_at apply_feedback
routed_after = refl

ends_at : 30 * seconds + 5 ≡ add_duration 5 (backoff_of (waits_for (30 * seconds)))
unfolding backoff_of
ends_at = refl

local : FeedbackScope.key ≢ FeedbackScope.global
local e = cc e

still_unbounded : scolded.limiter.cfg.max_keys ≡ none
unfolding apply_feedback new_at remap_route
still_unbounded = refl

backoff_lasts_example : Denied (try_acquire scolded_again.limiter 7 two (20 * seconds)).0
backoff_lasts_example =
    backoff_lasts (30 * seconds + 5) 7 {w = scolded} {v = scolded_again} 7 two (20 * seconds)
      (by_feedback (new_at unbounded 0) 7 (waits_for (30 * seconds)) 5 local routed_before ends_at
        refl)
      still_unbounded (next here (feeds 7 (waits_for seconds) 6 refl)) (tt, tt) routed_after
      (omega arith)

-- With a bound of one key, a feedback on another key evicts the bucket and its backoff.
abbrev bounded : Config
bounded = record cfg { max_keys = some 1 }

abbrev forgotten : RateLimiter
forgotten =
    apply_feedback (apply_feedback (new_at bounded 0) 7 (waits_for (30 * seconds)) 5) 8
      (waits_for seconds) 6

eviction_forgets : is_err (try_acquire forgotten 7 two (2 * seconds)).0 ≡ false
unfolding try_acquire apply_feedback new_at FixedWindow.window_start_for
eviction_forgets = refl
