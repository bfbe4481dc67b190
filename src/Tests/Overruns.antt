-- ===== src/Tests/Overruns.antt =====
-- The permits of one key of src/limiter.rs that are used and out in one window of ten seconds.
use shared_rate_limiter.Base.{
  is_err, false, ◌+◌, ◌*◌, ◌≤◌, ◌≡◌, refl, arith, none, some, ok, [], ◌∷◌, nat_eq,
}
use shared_rate_limiter.Types.{Permit, confirmed}
use shared_rate_limiter.Cost.{Cost}
use shared_rate_limiter.Config.{Config}
use shared_rate_limiter.FixedWindow
use shared_rate_limiter.Bucket.Usage.{charged}
use shared_rate_limiter.Limiter.State.{RateLimiter, new_at}
use shared_rate_limiter.Limiter.Acquire.{try_acquire}
use shared_rate_limiter.Feedback
use shared_rate_limiter.Feedback.{FeedbackScope}
use shared_rate_limiter.Limiter.Feedback.{apply_feedback}
use shared_rate_limiter.Limiter.Finalize.{commit}
use shared_rate_limiter.Limiter.History.{World, start, acquires, commits, Reach, here, next}
use shared_rate_limiter.Limiter.Overrun.{used, window_used}
use shared_rate_limiter.Tests.Calls.{seconds, cfg, two, two-IsCost, granted}

abbrev unbounded : Config
unbounded = record cfg { max_keys = none }

abbrev first : World
first = record {
  limiter = (try_acquire (new_at unbounded 0) 7 two 3).1;
  outstanding = granted ∷ [];
}

first_grant : (try_acquire (new_at unbounded 0) 7 two 3).0 ≡ ok granted
unfolding try_acquire new_at FixedWindow.window_start_for
first_grant = refl

abbrev sent : World
sent = record { limiter = commit first.limiter granted confirmed 4; outstanding = [] }

abbrev granted_again : Permit
granted_again = record granted { issued_at = 5 }

abbrev second : World
second = record { limiter = (try_acquire sent.limiter 7 two 5).1; outstanding = granted_again ∷ [] }

second_grant : (try_acquire sent.limiter 7 two 5).0 ≡ ok granted_again
unfolding try_acquire new_at commit FixedWindow.window_start_for
second_grant = refl

abbrev Reach-second : Reach (start unbounded 0) second
Reach-second =
    next {v = sent}
      (next {v = first}
        (next here (acquires 7 two 3 two-IsCost (omega arith) (rw first_grant refl)))
        (commits [] granted [] confirmed 4 refl refl))
      (acquires 7 two 5 two-IsCost (omega arith) (rw second_grant refl))

-- Two are used, and two are out.
used_now : charged 7 0 (used Reach-second) + charged 7 0 second.outstanding ≡ 4
used_now = refl

window_used_example : charged 7 0 (used Reach-second) + charged 7 0 second.outstanding ≤ 5
window_used_example =
    window_used 5 (10 * seconds) unbounded 0 {w = second} 7 0 (omega arith)
      (omega arith, omega arith, omega arith) refl (omega arith) refl Reach-second
      (((tt, omega arith), tt), omega arith) (((tt, tt), tt), tt)

-- With a bound of one key, another key evicts the bucket and what it has spent: the window grants anew.
abbrev bounded : Config
bounded = record cfg { max_keys = some 1 }

abbrev five : Cost
five = record { raw = 5 }

abbrev all_granted : Permit
all_granted = record granted { cost = five }

abbrev evicted : RateLimiter
evicted =
    apply_feedback (commit (try_acquire (new_at bounded 0) 7 five 3).1 all_granted confirmed 4) 8
      (Feedback.new 5 FeedbackScope.key) 5

eviction_regrants : is_err (try_acquire evicted 7 five 6).0 ≡ false
unfolding try_acquire commit new_at apply_feedback Feedback.new FixedWindow.window_start_for
eviction_regrants = refl
