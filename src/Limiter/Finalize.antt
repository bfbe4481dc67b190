-- ===== src/Limiter/Finalize.antt =====
-- src/limiter.rs: `commit` and `refund`, which take the permit back.
use shared_rate_limiter.Base.{nat_eq}
use shared_rate_limiter.Word.{add_duration}
use shared_rate_limiter.Types.{Duration, Permit, Scope, Outcome, rate_limited_feedback}
use shared_rate_limiter.Bucket
use shared_rate_limiter.Bucket.{BucketState, BucketDeny, BucketDenyReason, remaining_block}
use shared_rate_limiter.Limiter.State.{RateLimiter}
use shared_rate_limiter.Limiter.Keys.{with_bucket}
use shared_rate_limiter.Limiter.Feedback.{block_global}

-- The first statement of `commit`: a feedback with global scope blocks all keys.
unfoldable pub block_on_global : RateLimiter → Outcome → Duration → RateLimiter
unfolding block_global
block_on_global rl (rate_limited_feedback retry_after Scope.global hint) now =
    block_global rl (add_duration now retry_after)
block_on_global rl _ now = rl

unfoldable pub commit : RateLimiter → Permit → Outcome → Duration → RateLimiter
unfolding block_on_global with_bucket Bucket.commit
commit rl p outcome now =
    let rl' = block_on_global rl outcome now in
    with_bucket rl' p.key (λ b. Bucket.commit b p outcome now rl'.cfg.algorithm)

unfoldable pub refund : RateLimiter → Permit → Duration → RateLimiter
unfolding with_bucket Bucket.refund
refund rl p now = with_bucket rl p.key (λ b. Bucket.refund b p now rl.cfg.algorithm)
