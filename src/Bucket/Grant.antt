-- ===== src/Bucket/Grant.antt =====
-- What a grant of src/bucket.rs leaves in the window that it reserves in.
use shared_rate_limiter.Base.{ℕ, ◌+◌, ◌≤◌, ◌<◌, ◌≡◌, refl, ok, inl, inr, Option-cases, arith}
use shared_rate_limiter.Word.{u32_max}
use shared_rate_limiter.Types.{Key, Duration, Permit, PermitMeta}
use shared_rate_limiter.Cost.{Cost, get}
use shared_rate_limiter.Config.{AlgorithmConfig}
use shared_rate_limiter.FixedWindow.{FixedWindowState, maybe_reset_window}
use shared_rate_limiter.Bucket.{
  AlgoState, BucketState, reserve_window, reserve_algo, try_reserve, clear_expired_block,
  remaining_block,
}

-- The permit reserves in the window of a bucket, and what is spent and reserved there is within `max`.
pub record Reserves (max : ℕ) (k : Key) (cost : Cost) (p : Permit) (b : BucketState) : Type 0 where
  pub window : FixedWindowState
  pub is : b.algo ≡ AlgoState.fixed_window window
  pub key : p.key ≡ k
  pub stamp : p.meta ≡ PermitMeta.fixed_window window.window_start
  pub counted : get cost ≤ window.reserved
  pub within : window.spent + window.reserved ≤ max

module _ (k : Key) (max window : ℕ) (cost : Cost) (now : Duration) (fits : max ≤ u32_max) where
  reserve_window-Reserves :
      (s : FixedWindowState) (o : BucketState) {p : Permit}
      → 0 < get cost
      → (reserve_window s k max window cost now).0 ≡ ok p
      → Reserves max k cost p
          (record o { algo = AlgoState.fixed_window (reserve_window s k max window cost now).1 })
  unfolding reserve_window
  reserve_window-Reserves s o pos granted = record {
    window = (reserve_window s k max window cost now).1;
    is = refl;
    key = ground (arith, granted);
    stamp = ground (arith, granted);
    counted = ground (arith, granted, fits);
    within = ground (arith, granted, fits);
  }

  reserve_algo-Reserves :
      (state : AlgoState) (o : BucketState) {p : Permit}
      → 0 < get cost
      → (reserve_algo state k (AlgorithmConfig.fixed_window max window) cost now).0 ≡ ok p
      → Reserves max k cost p (record o {
        algo = (reserve_algo state k (AlgorithmConfig.fixed_window max window) cost now).1;
      })
  unfolding reserve_algo
  reserve_algo-Reserves (AlgoState.fixed_window s) o pos granted =
      reserve_window-Reserves (maybe_reset_window s now window) o pos granted
  reserve_algo-Reserves (AlgoState.token_bucket s) o pos granted = absurd (cc granted)

  pub try_reserve-Reserves :
      (b : BucketState) {p : Permit}
      → 0 < get cost
      → (try_reserve b k (AlgorithmConfig.fixed_window max window) cost now).0 ≡ ok p
      → Reserves max k cost p (try_reserve b k (AlgorithmConfig.fixed_window max window) cost now).1
  unfolding try_reserve clear_expired_block
  try_reserve-Reserves b pos granted =
      elim (Option-cases (remaining_block (clear_expired_block b now).blocked now)) [
        | inl free ↦
            rw (free, try_reserve)
              (reserve_algo-Reserves b.algo (clear_expired_block b now) pos
                (rw (free, try_reserve) at granted))
        | inr (wait, e) ↦ absurd (cc (rw (e, try_reserve) at granted))
      ]
