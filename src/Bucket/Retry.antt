-- ===== src/Bucket/Retry.antt =====
-- The wait that a denial of a window of src/bucket.rs recommends.
use shared_rate_limiter.Base.{
  ℕ, ◌+◌, ◌-◌, ◌≤◌, ◌<◌, ◌≡◌, ◌↔◌, refl, subst, err, false, is_err, none, arith,
}
use shared_rate_limiter.Word.{u32_max, add_u32, add_duration}
use shared_rate_limiter.Types.{Key, Duration}
use shared_rate_limiter.Cost.{Cost, get, IsCost}
use shared_rate_limiter.Config.{AlgorithmConfig}
use shared_rate_limiter.FixedWindow.{FixedWindowState, maybe_reset_window, retry_after_for_window}
use shared_rate_limiter.Bucket.{
  AlgoState, BucketState, BucketDeny, window_exhausted, reserve_window, reserve_algo, try_reserve,
  clear_expired_block, remaining_block,
}

-- What a denial says of the window that denied.
window_denied :
    (s : FixedWindowState) (k : Key) (max window : ℕ) (cost : Cost) (now : Duration)
    {d : BucketDeny}
    → (reserve_window s k max window cost now).0 ≡ err d
    → d.reason ≡ window_exhausted
    → (0 < max)
      × (get cost ≤ max)
      × (max - add_u32 s.spent s.reserved < get cost)
      × (d.deny.retry_after ≡ add_duration s.window_start window - now)
      × ((reserve_window s k max window cost now).1 ≡ s)
unfolding reserve_window retry_after_for_window
window_denied s k max window cost now denied why = ground (arith, denied, why)

-- A window with nothing reserved grants a cost of at most the maximum at a time exactly if it is over
-- then, or has the cost left.
window_grants :
    (s : FixedWindowState) (k : Key) (max window : ℕ) (cost : Cost) (now : Duration)
    → 0 < max
    → get cost ≤ max
    → max ≤ u32_max
    → s.reserved ≡ 0
    → IsCost cost
    → max - add_u32 s.spent s.reserved < get cost
    → (is_err (reserve_window (maybe_reset_window s now window) k max window cost now).0 ≡ false)
      ↔ (add_duration s.window_start window ≤ now)
unfolding reserve_window maybe_reset_window
window_grants s k max window cost now some_max le fits idle valid short =
    (λ g. ground (arith, idle, short), λ g. ground (arith, idle, short))

-- A window with nothing reserved that is denied for is the present one.
denied_present :
    (s : FixedWindowState) (max now window : ℕ) (cost : ℕ)
    → s.reserved ≡ 0
    → cost ≤ max
    → let s' = maybe_reset_window s now window in
      max - add_u32 s'.spent s'.reserved < cost
      → (s' ≡ s) × (now < add_duration s.window_start window)
unfolding maybe_reset_window
denied_present s max now window cost idle le short = ground (arith, idle, short)

module _ (s : FixedWindowState) (k : Key) (max window : ℕ) (cost : Cost) (now w : Duration) where
  window_retry :
      {d : BucketDeny}
      → IsCost cost
      → max ≤ u32_max
      → s.reserved ≡ 0
      → (reserve_window (maybe_reset_window s now window) k max window cost now).0 ≡ err d
      → d.reason ≡ window_exhausted
      → let s' = (reserve_window (maybe_reset_window s now window) k max window cost now).1 in
        (is_err
            (reserve_window (maybe_reset_window s' (now + w) window) k max window cost (now + w)).0
          ≡ false)
        ↔ (d.deny.retry_after ≤ w)
  window_retry {d} valid fits idle denied why =
      let r = maybe_reset_window s now window in
      let (some_max, le, short, wait, left) = window_denied r k max window cost now denied why in
      let (same, early) = denied_present s max now window (get cost) idle le short in
      let (to, from) =
        window_grants s k max window cost (now + w) some_max le fits idle valid
          (subst (λ x. max - add_u32 x.spent x.reserved < get cost) same short) in
      let wait' : d.deny.retry_after ≡ add_duration s.window_start window - now =
        rw (← same) wait in
      rw (left, same) (λ g. omega (arith, to g, wait'), λ h. from (omega (arith, h, wait', early)))

-- A bucket that denies for its window has no backoff left, and answers as its algorithm does.
unblocked_lem :
    (b : BucketState) (k : Key) (algo : AlgorithmConfig) (cost : Cost) (now : Duration)
    {d : BucketDeny}
    → (try_reserve b k algo cost now).0 ≡ err d
    → d.reason ≡ window_exhausted
    → ((reserve_algo b.algo k algo cost now).0 ≡ err d)
      × ((try_reserve b k algo cost now).1
          ≡ record { blocked = none; algo = (reserve_algo b.algo k algo cost now).1 })
unfolding try_reserve clear_expired_block remaining_block
unblocked_lem b k algo cost now denied why = ground (arith, denied, why)

-- A bucket without a backoff answers as its algorithm does.
open_lem :
    (state : AlgoState) (k : Key) (algo : AlgorithmConfig) (cost : Cost) (now : Duration)
    → (try_reserve (record { blocked = none; algo = state }) k algo cost now).0
      ≡ (reserve_algo state k algo cost now).0
unfolding try_reserve clear_expired_block remaining_block
open_lem state k algo cost now = refl

-- A denial for an exhausted window with nothing reserved, whose maximum fits a `u32`, recommends exactly
-- the time that is left to the window: the bucket that it leaves, asked again for the cost, denies it
-- after every shorter wait, and grants it after this wait and every longer one.
pub window_retry_after-least :
    (b : BucketState) (s : FixedWindowState) (k : Key) (max window : ℕ) (cost : Cost)
    (now w : Duration) {d : BucketDeny}
    → IsCost cost
    → max ≤ u32_max
    → b.algo ≡ AlgoState.fixed_window s
    → s.reserved ≡ 0
    → (try_reserve b k (AlgorithmConfig.fixed_window max window) cost now).0 ≡ err d
    → d.reason ≡ window_exhausted
    → let b' = (try_reserve b k (AlgorithmConfig.fixed_window max window) cost now).1 in
      (is_err (try_reserve b' k (AlgorithmConfig.fixed_window max window) cost (now + w)).0 ≡ false)
      ↔ (d.deny.retry_after ≤ w)
unfolding reserve_algo
window_retry_after-least b s k max window cost now w {d} valid fits is idle denied why =
    let algo = AlgorithmConfig.fixed_window max window in
    let (inner, left) = unblocked_lem b k algo cost now denied why in
    rw (left, is, open_lem)
      (window_retry s k max window cost now w valid fits idle (rw is at inner) why)
