-- ===== src/Bucket/Overdue.antt =====
-- A window of src/bucket.rs that is over while a permit of it is still out.
use shared_rate_limiter.Base.{
  ap, ◌∙◌, Option, some, true, leb, ℕ, ◌+◌, ◌-◌, ◌≤◌, ◌<◌, ◌≡◌, ◌≢◌, refl, err, none, arith,
}
use shared_rate_limiter.Word.{u32_max, add_duration}
use shared_rate_limiter.Types.{Key, Duration}
use shared_rate_limiter.Cost.{Cost, get, IsCost}
use shared_rate_limiter.Config.{AlgorithmConfig}
use shared_rate_limiter.FixedWindow.{FixedWindowState, retry_after_for_window}
use shared_rate_limiter.Bucket.Backoff.{ends}
use shared_rate_limiter.Bucket.Ledger.{kept_window}
use shared_rate_limiter.Bucket.{
  AlgoState, BucketState, BucketDenyReason, reserve_window, reserve_algo, try_reserve,
  clear_expired_block, remaining_block,
}

reserve_window_overdue :
    (s : FixedWindowState) (k : Key) (max window : ℕ) (cost : Cost) (now : Duration)
    → IsCost cost
    → s.reserved ≢ 0
    → get cost ≤ max
    → 0 < max
    → max ≤ u32_max
    → max < s.spent + s.reserved + get cost
    → add_duration s.window_start window ≤ now
    → reserve_window s k max window cost now ≡ (
      err (record {
        deny = record { retry_after = 0 };
        reason = BucketDenyReason.window_exhausted;
      }),
      s,
    )
unfolding reserve_window retry_after_for_window
reserve_window_overdue s k max window cost now valid out fits some_max bound full over =
    let late : add_duration s.window_start window - now ≡ 0 = omega arith in
    ground (arith, late, valid.nonzero)

-- A backoff that has ended makes no difference.
ended_lem :
    (o : Option Duration) (state : AlgoState) (k : Key) (algo : AlgorithmConfig) (cost : Cost)
    (now : Duration)
    → ends o ≤ now
    → try_reserve (record { blocked = o; algo = state }) k algo cost now
      ≡ try_reserve (record { blocked = none; algo = state }) k algo cost now
unfolding try_reserve clear_expired_block remaining_block
ended_lem none state k algo cost now h = refl
ended_lem (some until) state k algo cost now h =
    let over : leb until now ≡ true = ground (arith, h) in rw (over, try_reserve, over) refl

-- While a permit of an exhausted window is out, a bucket whose backoff has ended, if it had one, denies a
-- cost within the maximum, a `u32`, at every time from the window's end on, however late, and the wait
-- that the denial recommends is 0.
pub try_reserve_overdue :
    (b : BucketState) (s : FixedWindowState) (k : Key) (max window : ℕ) (cost : Cost)
    (now : Duration)
    → b.algo ≡ AlgoState.fixed_window s
    → ends b.blocked ≤ now
    → IsCost cost
    → s.reserved ≢ 0
    → get cost ≤ max
    → 0 < max
    → max ≤ u32_max
    → max < s.spent + s.reserved + get cost
    → add_duration s.window_start window ≤ now
    → try_reserve b k (AlgorithmConfig.fixed_window max window) cost now ≡ (
      err (record {
        deny = record { retry_after = 0 };
        reason = BucketDenyReason.window_exhausted;
      }),
      record { blocked = none; algo = AlgoState.fixed_window s },
    )
unfolding try_reserve clear_expired_block remaining_block reserve_algo
try_reserve_overdue b s k max window cost now is ended valid out fits some_max bound full over =
    let algo = AlgorithmConfig.fixed_window max window in
    let kept = kept_window s now window out in
    ended_lem b.blocked b.algo k algo cost now ended
    ∙ ap (λ a. try_reserve (record { blocked = none; algo = a }) k algo cost now) is
    ∙ rw
        (
          kept,
          reserve_window_overdue s k max window cost now valid out fits some_max bound full over,
        )
        refl
