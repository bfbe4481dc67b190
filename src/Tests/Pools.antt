-- ===== src/Tests/Pools.antt =====
-- Calls on a pool of src/token_bucket.rs with ten credits and three credits a second.
use shared_rate_limiter.Base.{
  ◌-◌, ◌*◌, ◌+◌, ◌/◌, ◌≤◌, ◌<◌, ◌≡◌, ◌↔◌, refl, arith, false, ok, err, is_err, [], ◌∷◌,
}
use shared_rate_limiter.Word.{u64_max, nanos_per_sec, div_ceil}
use shared_rate_limiter.Types.{Duration}
use shared_rate_limiter.Cost.{Cost, IsCost}
use shared_rate_limiter.TokenBucket.{
  TokenBucketState, refill, retry_after_for_deficit, credits_added, try_reserve, refund,
}
use shared_rate_limiter.TokenBucket.Retry.{retry_after-least}
use shared_rate_limiter.TokenBucket.Refund.{refund-try_reserve, refund-wraps}
use shared_rate_limiter.TokenBucket.Polling.{poll, poll_starves}
use shared_rate_limiter.TokenBucket.Throughput.{reserves, refunds, run, opened, granted-le}

abbrev seconds : Duration
seconds = 1000000000

abbrev five : Cost
five = record { raw = 5 }

five-IsCost : IsCost five
five-IsCost = record { nonzero = omega arith; fits = omega arith }

abbrev pool : TokenBucketState
pool = record { last_update = 0; credits = 6; in_flight = 0 }

abbrev low : TokenBucketState
low = record { last_update = 0; credits = 2; in_flight = 0 }

low_waits : (try_reserve low 10 3 five 0).0 ≡ err (record { retry_after = seconds })
unfolding try_reserve retry_after_for_deficit div_ceil
low_waits = refl

pays_later : (try_reserve pool 10 3 five seconds).0 ≡ ok tt
unfolding try_reserve credits_added
pays_later = refl

granted-le_example :
    (run 10 3
      (opened pool)
      (reserves five 0 ∷ reserves five seconds ∷ refunds five seconds ∷ [])).granted
    ≤ 6
      + (run 10 3
          (opened pool)
          (reserves five 0 ∷ reserves five seconds ∷ refunds five seconds ∷ [])).refunded
      + (2 * seconds - 0) * 3 / nanos_per_sec
granted-le_example =
    granted-le 10 3 pool (reserves five 0 ∷ reserves five seconds ∷ refunds five seconds ∷ [])
      (2 * seconds) (omega arith) (omega arith, (omega arith, (omega arith, tt)))

retry_after-least_example :
    (is_err (try_reserve (try_reserve low 10 3 five 0).1 10 3 five (0 + 2 * seconds)).0 ≡ false)
    ↔ (seconds ≤ 2 * seconds)
retry_after-least_example =
    retry_after-least low 10 3 five 0 (2 * seconds) five-IsCost (omega arith) (omega arith)
      (omega arith) (omega arith) low_waits

refund-try_reserve_example :
    refund (try_reserve pool 10 3 five seconds).1 10 five seconds 3 ≡ refill pool 10 3 seconds
refund-try_reserve_example =
    refund-try_reserve pool 10 3 five seconds (record { held = omega arith }) (omega arith)
      (omega arith) pays_later

refund-wraps_example :
    (refund
      (record { last_update = 0; credits = u64_max - 3; in_flight = 5 })
      u64_max
      five
      0
      3).credits
    < 5
refund-wraps_example =
    refund-wraps (record { last_update = 0; credits = u64_max - 3; in_flight = 5 }) u64_max 3 five
      (omega arith) five-IsCost (omega arith)

poll_starves_example : poll low 10 3 five 0 (300000000 ∷ 300000000 ∷ 300000000 ∷ 300000000 ∷ []) ≡ 0
poll_starves_example =
    poll_starves low 10 3 five (300000000 ∷ 300000000 ∷ 300000000 ∷ 300000000 ∷ []) five-IsCost
      (omega arith) (omega arith, (omega arith, (omega arith, (omega arith, tt))))
