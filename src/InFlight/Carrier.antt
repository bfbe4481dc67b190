-- ===== src/InFlight/Carrier.antt =====
-- `LimiterInFlight` of src/in_flight.rs: an entry that carries a permit of the limiter.
use shared_rate_limiter.Base.{List}
use shared_rate_limiter.Types.{Duration, Permit, Outcome, not_sent, sent_no_confirm}
use shared_rate_limiter.Limiter.State.{RateLimiter}
use shared_rate_limiter.Limiter.Finalize
use shared_rate_limiter.InFlight.Waiters
use shared_rate_limiter.InFlight.Waiters.{Waiters}

pub data LimiterInFlightExpiryPolicy : Type 0 where
  commit_sent_no_confirm refund : LimiterInFlightExpiryPolicy

pub record LimiterInFlight {ℓ} (W : Type ℓ) : Type ℓ where
  pub permit : Permit
  pub deadline : Duration
  pub waiters : Waiters W

-- The limiter's part of `finalize`.
unfoldable pub settle : RateLimiter → Permit → Outcome → Duration → RateLimiter
unfolding Finalize.refund Finalize.commit
settle rl p not_sent now = Finalize.refund rl p now
settle rl p outcome now = Finalize.commit rl p outcome now

-- The limiter's part of `expire`.
unfoldable pub settle_expired :
    RateLimiter → Permit → LimiterInFlightExpiryPolicy → Duration → RateLimiter
unfolding Finalize.refund Finalize.commit
settle_expired rl p commit_sent_no_confirm now = Finalize.commit rl p sent_no_confirm now
settle_expired rl p refund now = Finalize.refund rl p now

module _ {ℓ} {W : Type ℓ} where
  unfoldable pub new : Permit → Duration → W → LimiterInFlight W
  new permit deadline waiter = record {
    permit = permit;
    deadline = deadline;
    waiters = Waiters.one waiter;
  }

  unfoldable pub join : LimiterInFlight W → W → LimiterInFlight W
  unfolding Waiters.push
  join e waiter = record e { waiters = Waiters.push e.waiters waiter }

  unfoldable pub complete : LimiterInFlight W → List W
  unfolding Waiters.into_vec
  complete e = Waiters.into_vec e.waiters

  unfoldable pub finalize :
      LimiterInFlight W → RateLimiter → Outcome → Duration → List W × RateLimiter
  unfolding settle Waiters.into_vec
  finalize e rl outcome now = (Waiters.into_vec e.waiters, settle rl e.permit outcome now)

  unfoldable pub expire :
      LimiterInFlight W
      → RateLimiter
      → LimiterInFlightExpiryPolicy
      → Duration
      → List W × RateLimiter
  unfolding settle_expired Waiters.into_vec
  expire e rl policy now = (Waiters.into_vec e.waiters, settle_expired rl e.permit policy now)
