-- ===== src/TokenBucket/Retry.antt =====
-- The wait that a denial of src/token_bucket.rs recommends.
use native.Mathlib.Nat.{mul-le-mul_right}
use shared_rate_limiter.Base.{ℕ, ◌+◌, ◌-◌, ◌*◌, ◌≤◌, ◌<◌, ◌≡◌, ◌↔◌, err, arith, false, is_err}
use shared_rate_limiter.Word.{
  u32_max, u64_max, mul_u128, nanos_per_sec, div_ceil, div_ceil-reaches, div_ceil-least,
}
use shared_rate_limiter.Types.{Duration, Deny}
use shared_rate_limiter.Cost.{Cost, get, IsCost}
use shared_rate_limiter.TokenBucket.{
  TokenBucketState, credits_added, retry_after_for_deficit, refill, reserve_refilled, try_reserve,
}
use shared_rate_limiter.TokenBucket.Bounds.{refill-last_update}

module _ (deficit rate : ℕ) (pos : 0 < rate) (fits : deficit ≤ u32_max) where
  abbrev nanos : ℕ
  nanos = div_ceil (deficit * nanos_per_sec) rate

  wait_lem : retry_after_for_deficit deficit rate ≡ nanos
  unfolding retry_after_for_deficit
  wait_lem =
      let exact : mul_u128 deficit nanos_per_sec ≡ deficit * nanos_per_sec = omega arith in
      let bound : nanos ≤ deficit * nanos_per_sec =
        div_ceil-least (deficit * nanos_per_sec) rate (deficit * nanos_per_sec) pos (grind arith) in
      rw exact (omega (arith, bound))

  wait-enough : (w : ℕ) → retry_after_for_deficit deficit rate ≤ w → deficit ≤ credits_added w rate
  unfolding credits_added
  wait-enough w h = omega (
    arith,
    div_ceil-reaches (deficit * nanos_per_sec) rate pos,
    mul-le-mul_right rate (rw wait_lem at h),
  )

  wait-needed : (w : ℕ) → deficit ≤ credits_added w rate → retry_after_for_deficit deficit rate ≤ w
  unfolding credits_added
  wait-needed w h = rw wait_lem (div_ceil-least (deficit * nanos_per_sec) rate w pos (omega arith))

credits_added-zero : (rate : ℕ) → credits_added 0 rate ≡ 0
unfolding credits_added
credits_added-zero rate = grind arith

-- A pool that cannot pay the cost grants it after a wait of `w` exactly if the refill covers what is
-- missing.
module _ (s : TokenBucketState) (capacity rate : ℕ) (cost : Cost) where
  reserve_later :
      (w : Duration)
      → 0 < get cost
      → get cost ≤ capacity
      → capacity ≤ u64_max
      → 0 < rate
      → s.credits < get cost
      → (is_err (try_reserve s capacity rate cost (s.last_update + w)).0 ≡ false)
        ↔ (get cost - s.credits ≤ credits_added w rate)
  unfolding try_reserve
  reserve_later w h fits bound pos short =
      let e : s.last_update + w - s.last_update ≡ w = omega arith in
      (
        λ g. ground (arith, e, credits_added-zero rate),
        λ g. ground (arith, e, credits_added-zero rate),
      )

denied_lem :
    (r : TokenBucketState) (capacity rate : ℕ) (cost : Cost) {deny : Deny}
    → 0 < get cost
    → get cost ≤ capacity
    → 0 < rate
    → (reserve_refilled r capacity rate cost).0 ≡ err deny
    → ((reserve_refilled r capacity rate cost).1 ≡ r)
      × (r.credits < get cost)
      × (deny.retry_after ≡ retry_after_for_deficit (get cost - r.credits) rate)
unfolding reserve_refilled
denied_lem r capacity rate cost h fits pos denied = ground arith

wait_lem_at :
    (r : TokenBucketState) (capacity rate : ℕ) (cost : Cost) (now w : Duration)
    → IsCost cost
    → get cost ≤ capacity
    → capacity ≤ u64_max
    → 0 < rate
    → r.credits < get cost
    → r.last_update ≡ now
    → (is_err (try_reserve r capacity rate cost (now + w)).0 ≡ false)
      ↔ (retry_after_for_deficit (get cost - r.credits) rate ≤ w)
wait_lem_at r capacity rate cost now w valid fits bound pos short t =
    let due : get cost - r.credits ≤ u32_max = omega (arith, valid.fits) in
    let (granted, paid) = reserve_later r capacity rate cost w valid.nonzero fits bound pos short in
    rw (← t) (
      λ g. wait-needed (get cost - r.credits) rate pos due w (granted g),
      λ g. paid (wait-enough (get cost - r.credits) rate pos due w g),
    )

-- A denial of a cost that the capacity admits, at a rate that is not 0 and a time that is not before the
-- pool's last update, where the capacity fits a `u64`, recommends the least wait after which the pool
-- that it leaves grants the cost: no shorter wait does, and every longer one.
pub retry_after-least :
    (s : TokenBucketState) (capacity rate : ℕ) (cost : Cost) (now w : Duration) {deny : Deny}
    → IsCost cost
    → get cost ≤ capacity
    → capacity ≤ u64_max
    → 0 < rate
    → s.last_update ≤ now
    → (try_reserve s capacity rate cost now).0 ≡ err deny
    → let s' = (try_reserve s capacity rate cost now).1 in
      (is_err (try_reserve s' capacity rate cost (now + w)).0 ≡ false) ↔ (deny.retry_after ≤ w)
unfolding reserve_refilled try_reserve
retry_after-least s capacity rate cost now w {deny} valid fits bound pos order denied =
    let r = refill s capacity rate now in
    let (same, short, wait) = denied_lem r capacity rate cost valid.nonzero fits pos denied in
    let t = refill-last_update s capacity rate now order in
    rw (same, wait) (wait_lem_at r capacity rate cost now w valid fits bound pos short t)
