-- ===== src/Bucket/Undo.antt =====
-- A reservation in a window of src/bucket.rs that is refunded at once.
use shared_rate_limiter.Base.{ℕ, ◌+◌, ◌≤◌, ◌<◌, ◌≡◌, refl, subst, ap, ok, none, arith}
use shared_rate_limiter.Word.{u32_max}
use shared_rate_limiter.Types.{Key, Duration, Permit, PermitMeta}
use shared_rate_limiter.Cost.{Cost, get}
use shared_rate_limiter.Config.{AlgorithmConfig}
use shared_rate_limiter.FixedWindow.{FixedWindowState, maybe_reset_window}
use shared_rate_limiter.Bucket.{
  AlgoState, BucketState, reserve_window, reserve_algo, try_reserve, clear_expired_block,
  remaining_block, refund_window, refund_algo, refund,
}
use shared_rate_limiter.Bucket.Ledger.{kept_window}

-- What a window and its permit are after a grant.
window_granted :
    (s : FixedWindowState) (k : Key) (max window : ℕ) (cost : Cost) (now : Duration) {p : Permit}
    → max ≤ u32_max
    → 0 < get cost
    → (reserve_window s k max window cost now).0 ≡ ok p
    → ((reserve_window s k max window cost now).1 ≡ record s { reserved = s.reserved + get cost })
      × (p.key ≡ k)
      × (get p.cost ≡ get cost)
      × (p.meta ≡ PermitMeta.fixed_window s.window_start)
unfolding reserve_window
window_granted s k max window cost now fits pos granted = ground (arith, granted)

window_undone :
    (s : FixedWindowState) (now window : Duration) (cost : Cost)
    → 0 < get cost
    → refund_window
        (maybe_reset_window (record s { reserved = s.reserved + get cost }) now window)
        s.window_start
        cost
      ≡ s
unfolding refund_window
window_undone s now window cost pos =
    let kept =
      kept_window (record s { reserved = s.reserved + get cost }) now window
        (λ e. omega (arith, e, pos)) in
    rw kept (ground arith)

-- A bucket that grants has no backoff left, and its algorithm grants.
open_granted :
    (b : BucketState) (k : Key) (algo : AlgorithmConfig) (cost : Cost) (now : Duration) {p : Permit}
    → (try_reserve b k algo cost now).0 ≡ ok p
    → ((reserve_algo b.algo k algo cost now).0 ≡ ok p)
      × ((try_reserve b k algo cost now).1
          ≡ record { blocked = none; algo = (reserve_algo b.algo k algo cost now).1 })
unfolding try_reserve clear_expired_block remaining_block
open_granted b k algo cost now granted = ground (arith, granted)

open_refund :
    (state : AlgoState) (p : Permit) (now : Duration) (algo : AlgorithmConfig)
    → refund (record { blocked = none; algo = state }) p now algo
      ≡ record { blocked = none; algo = refund_algo state p now algo p.meta }
unfolding refund clear_expired_block
open_refund state p now algo = refl

module _ (k : Key) (max max' window : ℕ) (cost : Cost) (now : Duration) (fits : max' ≤ u32_max)
    (pos : 0 < get cost) where
  -- The fixed-window arms of the two methods.
  algo_undone :
      (s : FixedWindowState) {p : Permit}
      → (reserve_algo
          (AlgoState.fixed_window s)
          k
          (AlgorithmConfig.fixed_window max' window)
          cost
          now).0
        ≡ ok p
      → (refund_algo
            (reserve_algo
              (AlgoState.fixed_window s)
              k
              (AlgorithmConfig.fixed_window max' window)
              cost
              now).1
            p
            now
            (AlgorithmConfig.fixed_window max window)
            p.meta
          ≡ AlgoState.fixed_window (maybe_reset_window s now window))
        × (p.key ≡ k)
  unfolding reserve_algo refund_algo
  algo_undone s {p} granted =
      let r = maybe_reset_window s now window in
      let (left, key, paid, stamp) = window_granted r k max' window cost now fits pos granted in
      let p_pos : 0 < get p.cost = omega (arith, paid, pos) in
      (
        rw (stamp, left, ← paid)
            (ap (λ x. AlgoState.fixed_window x) (window_undone r now window p.cost p_pos)),
        key,
      )

  -- A reservation that is refunded at once leaves the bucket as the time alone would: no backoff, which
  -- has ended, and the window of the time.
  pub refund-try_reserve_window :
      (b : BucketState) (s : FixedWindowState) {p : Permit}
      → b.algo ≡ AlgoState.fixed_window s
      → (try_reserve b k (AlgorithmConfig.fixed_window max' window) cost now).0 ≡ ok p
      → (refund
            (try_reserve b k (AlgorithmConfig.fixed_window max' window) cost now).1
            p
            now
            (AlgorithmConfig.fixed_window max window)
          ≡ record {
            blocked = none;
            algo = AlgoState.fixed_window (maybe_reset_window s now window);
          })
        × (p.key ≡ k)
  refund-try_reserve_window b s {p} is granted =
      let eff = AlgorithmConfig.fixed_window max' window in
      let (inner, left) = open_granted b k eff cost now granted in
      let (back, key) =
        algo_undone s (subst (λ a. (reserve_algo a k eff cost now).0 ≡ ok p) is inner) in
      (rw (left, open_refund, is) (ap (λ a. record { blocked = none; algo = a }) back), key)
