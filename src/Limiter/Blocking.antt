-- ===== src/Limiter/Blocking.antt =====
-- The backoff of all keys in src/limiter.rs, over the calls that follow it.
use shared_rate_limiter.Base.{nat_eq}
use shared_rate_limiter.Cost.{Cost}
use shared_rate_limiter.Config.{Config}
use shared_rate_limiter.Bucket
use shared_rate_limiter.Bucket.{BucketState, BucketDeny}
