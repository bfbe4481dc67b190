-- ===== src/Feedback.antt =====
-- src/feedback.rs: what a server said about its limits. The methods of the trait
-- `RateLimitFeedback` are the fields of a record.
use shared_rate_limiter.Base.{ℕ, Option, none}
use shared_rate_limiter.Types.{Key, Duration}

pub data FeedbackScope : Type 0 where
  global key route : FeedbackScope

-- The trait: an adapter's answers. Its defaults for the last three methods are `None`.
pub record RateLimitFeedback : Type 0 where
  pub retry_after : Duration
  pub scope : FeedbackScope
  pub remaining : Option ℕ
  pub reset_after : Option Duration
  pub bucket_remap : Option Key

-- The struct `Feedback`, whose methods are its fields.
abbrev pub Feedback : Type 0
Feedback = RateLimitFeedback

unfoldable pub new : Duration → FeedbackScope → Feedback
new retry_after scope = record {
  retry_after = retry_after;
  scope = scope;
  remaining = none;
  reset_after = none;
  bucket_remap = none;
}
