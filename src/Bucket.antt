-- ===== src/Bucket.antt =====
-- src/bucket.rs: the state of one key, a backoff deadline beside the accounting of the configured
-- algorithm. A method with `&mut self` returns the new state, behind its result where it has one.
-- The build is a release build: a `debug_assert!` does nothing.
pub mod Ledger
pub mod Quota
pub mod Update
pub mod Settle
pub mod Overdue
pub mod Retry
pub mod Grant
pub mod Undo
pub mod Backoff
pub mod Usage
use shared_rate_limiter.Base.{
  ℕ, ◌-◌, max, Bool, not, if◌then◌else◌, leb, ltb, ◌==◌, ◌&&◌, Option, none, some, Result, ok, err,
}
use shared_rate_limiter.Word.{duration_max, nanos_per_sec, add_duration, add_u32}
use shared_rate_limiter.Types.{
  Key, Duration, Permit, PermitMeta, Deny, Scope, Outcome, not_sent, rate_limited_feedback,
}
use shared_rate_limiter.Cost.{Cost, get}
use shared_rate_limiter.Config.{AlgorithmConfig}
use shared_rate_limiter.FixedWindow
use shared_rate_limiter.FixedWindow.{FixedWindowState}
use shared_rate_limiter.TokenBucket
use shared_rate_limiter.TokenBucket.{TokenBucketState}

pub data BucketDenyReason : Type 0 where
  blocked_until window_exhausted disabled unachievable : BucketDenyReason

pub record BucketDeny : Type 0 where
  pub deny : Deny
  pub reason : BucketDenyReason

pub data AlgoState : Type 0 where
  fixed_window : FixedWindowState → AlgoState
  token_bucket : TokenBucketState → AlgoState

pub record BucketState : Type 0 where
  pub blocked : Option Duration
  pub algo : AlgoState

unfoldable pub new_algo : Duration → AlgorithmConfig → AlgoState
unfolding FixedWindow.new TokenBucket.new
new_algo now (AlgorithmConfig.fixed_window max_per_window window) =
    AlgoState.fixed_window (FixedWindow.new now window)
new_algo now (AlgorithmConfig.token_bucket capacity refill_per_sec) =
    AlgoState.token_bucket (TokenBucket.new now capacity)

unfoldable pub new : Duration → AlgorithmConfig → BucketState
unfolding new_algo
new now algo = record { blocked = none; algo = new_algo now algo }

unfoldable pub algo_outstanding : AlgoState → Bool
unfolding FixedWindow.has_outstanding TokenBucket.has_outstanding
algo_outstanding (AlgoState.fixed_window s) = FixedWindow.has_outstanding s
algo_outstanding (AlgoState.token_bucket s) = TokenBucket.has_outstanding s

unfoldable pub has_outstanding : BucketState → Bool
unfolding algo_outstanding
has_outstanding b = algo_outstanding b.algo

unfoldable pub clear_expired_block : BucketState → Duration → BucketState
clear_expired_block b now = record b {
  blocked = elim b.blocked [
    | none ↦ none
    | some until ↦ if leb until now then none else some until
  ];
}

-- How long a backoff still lasts: `Some(until)` with `now < until`.
unfoldable pub remaining_block : Option Duration → Duration → Option Duration
remaining_block none now = none
remaining_block (some until) now = if ltb now until then some (until - now) else none

abbrev deny_with {ℓ} : {A : Type ℓ} → Duration → BucketDenyReason → Result A BucketDeny
deny_with retry_after reason =
    err (record { deny = record { retry_after = retry_after }; reason = reason })

-- The fixed-window arm of `try_reserve`, behind the reset of the window.
unfoldable pub reserve_window :
    FixedWindowState
    → Key
    → ℕ
    → Duration
    → Cost
    → Duration
    → Result Permit BucketDeny × FixedWindowState
unfolding FixedWindow.retry_after_for_window
reserve_window s k max_per_window window cost now =
    if max_per_window == 0
    then (deny_with window disabled, s)
    else if ltb max_per_window (get cost)
    then (deny_with duration_max unachievable, s)
    else if ltb (max_per_window - add_u32 s.spent s.reserved) (get cost)
    then (deny_with (FixedWindow.retry_after_for_window s now window) window_exhausted, s)
    else (
      ok (record {
        key = k;
        cost = cost;
        window_start = s.window_start;
        issued_at = now;
        deadline = add_duration s.window_start window;
        meta = PermitMeta.fixed_window s.window_start;
      }),
      record s { reserved = add_u32 s.reserved (get cost) },
    )

-- The result of the token-bucket arm.
unfoldable pub token_result :
    Key → Cost → Duration → Result (Unit {0}) Deny → Result Permit BucketDeny
token_result k cost now (ok _) = ok (record {
  key = k;
  cost = cost;
  window_start = 0;
  issued_at = now;
  deadline = 0;
  meta = PermitMeta.token_bucket;
})
token_result k cost now (err deny) = err (record {
  deny = deny;
  reason = if deny.retry_after == duration_max then unachievable else window_exhausted;
})

-- The match on the algorithm in `try_reserve`.
unfoldable pub reserve_algo :
    AlgoState → Key → AlgorithmConfig → Cost → Duration → Result Permit BucketDeny × AlgoState
unfolding reserve_window token_result FixedWindow.maybe_reset_window TokenBucket.try_reserve
reserve_algo (AlgoState.fixed_window s) k (AlgorithmConfig.fixed_window max_per_window window) cost
      now =
    let (result, s') =
      reserve_window (FixedWindow.maybe_reset_window s now window) k max_per_window window cost
        now in
    (result, AlgoState.fixed_window s')
reserve_algo (AlgoState.token_bucket s) k (AlgorithmConfig.token_bucket capacity refill_per_sec)
      cost now =
    if capacity == 0
    then (deny_with duration_max disabled, AlgoState.token_bucket s)
    else (let (result, s') = TokenBucket.try_reserve s capacity refill_per_sec cost now in
        (token_result k cost now result, AlgoState.token_bucket s'))
reserve_algo state k _ cost now = (deny_with nanos_per_sec disabled, state)

unfoldable pub try_reserve :
    BucketState → Key → AlgorithmConfig → Cost → Duration → Result Permit BucketDeny × BucketState
unfolding clear_expired_block remaining_block reserve_algo
try_reserve b k algo cost now =
    let b' = clear_expired_block b now in
    elim (remaining_block b'.blocked now) [
      | some wait ↦ (deny_with wait blocked_until, b')
      | none ↦
          (let (result, state) = reserve_algo b'.algo k algo cost now in
            (result, record b' { algo = state }))
    ]

unfoldable pub refund_window : FixedWindowState → Duration → Cost → FixedWindowState
refund_window s window_start cost =
    if not (window_start == s.window_start)
    then s
    else record s { reserved = s.reserved - get cost }

unfoldable pub refund_algo :
    AlgoState → Permit → Duration → AlgorithmConfig → PermitMeta → AlgoState
unfolding FixedWindow.maybe_reset_window refund_window TokenBucket.refund
refund_algo (AlgoState.fixed_window s) p now (AlgorithmConfig.fixed_window _ window)
      (PermitMeta.fixed_window window_start) =
    AlgoState.fixed_window
      (refund_window (FixedWindow.maybe_reset_window s now window) window_start p.cost)
refund_algo (AlgoState.token_bucket s) p now (AlgorithmConfig.token_bucket capacity refill_per_sec)
      PermitMeta.token_bucket =
    AlgoState.token_bucket (TokenBucket.refund s capacity p.cost now refill_per_sec)
refund_algo state p now _ _ = state

unfoldable pub refund : BucketState → Permit → Duration → AlgorithmConfig → BucketState
unfolding clear_expired_block refund_algo
refund b p now algo =
    let b' = clear_expired_block b now in record b' { algo = refund_algo b'.algo p now algo p.meta }

unfoldable pub apply_blocked_until : BucketState → Duration → BucketState
apply_blocked_until b until = record b {
  blocked = some (elim b.blocked [ none ↦ until | some cur ↦ max cur until ]);
}

unfoldable pub commit_window : FixedWindowState → Duration → Cost → Outcome → FixedWindowState
commit_window s window_start cost outcome =
    if not (window_start == s.window_start)
    then s
    else (let spent = add_u32 s.spent (get cost) in
        record s {
          reserved = s.reserved - get cost;
          spent = elim outcome [ not_sent ↦ spent - get cost | _ ↦ spent ];
        })

unfoldable pub commit_tokens :
    TokenBucketState → Permit → Outcome → Duration → ℕ → ℕ → TokenBucketState
unfolding TokenBucket.refund TokenBucket.commit
commit_tokens s p not_sent now capacity refill_per_sec =
    TokenBucket.refund s capacity p.cost now refill_per_sec
commit_tokens s p _ now capacity refill_per_sec = TokenBucket.commit s p.cost

unfoldable pub commit_algo :
    AlgoState → Permit → Outcome → Duration → AlgorithmConfig → PermitMeta → AlgoState
unfolding FixedWindow.maybe_reset_window commit_window commit_tokens
commit_algo (AlgoState.fixed_window s) p outcome now (AlgorithmConfig.fixed_window _ window)
      (PermitMeta.fixed_window window_start) =
    AlgoState.fixed_window
      (commit_window (FixedWindow.maybe_reset_window s now window) window_start p.cost outcome)
commit_algo (AlgoState.token_bucket s) p outcome now
      (AlgorithmConfig.token_bucket capacity refill_per_sec) PermitMeta.token_bucket =
    AlgoState.token_bucket (commit_tokens s p outcome now capacity refill_per_sec)
commit_algo state p outcome now _ _ = state

-- The first match of `commit`: a key-scoped feedback extends the backoff.
unfoldable pub block_on_feedback : BucketState → Outcome → Duration → BucketState
unfolding apply_blocked_until
block_on_feedback b (rate_limited_feedback retry_after Scope.key hint) now =
    apply_blocked_until b (add_duration now retry_after)
block_on_feedback b _ now = b

unfoldable pub commit : BucketState → Permit → Outcome → Duration → AlgorithmConfig → BucketState
unfolding clear_expired_block block_on_feedback commit_algo
commit b p outcome now algo =
    let b' = block_on_feedback (clear_expired_block b now) outcome now in
    record b' { algo = commit_algo b'.algo p outcome now algo p.meta }

unfoldable pub update_algo : AlgoState → AlgorithmConfig → AlgorithmConfig → Duration → AlgoState
unfolding FixedWindow.window_start_for FixedWindow.has_outstanding TokenBucket.refill
    TokenBucket.apply_capacity_change new_algo
update_algo (AlgoState.fixed_window s) (AlgorithmConfig.fixed_window _ old_w)
      (AlgorithmConfig.fixed_window _ new_w) now =
    if not (old_w == new_w) && not (FixedWindow.has_outstanding s)
    then AlgoState.fixed_window
        (record s { window_start = FixedWindow.window_start_for now new_w; spent = 0 })
    else AlgoState.fixed_window s
update_algo (AlgoState.token_bucket s) (AlgorithmConfig.token_bucket old_cap old_refill)
      (AlgorithmConfig.token_bucket new_cap _) now =
    AlgoState.token_bucket (
      TokenBucket.apply_capacity_change (TokenBucket.refill s old_cap old_refill now) old_cap
        new_cap)
update_algo state old new now = new_algo now new

unfoldable pub on_update : BucketState → AlgorithmConfig → AlgorithmConfig → Duration → BucketState
unfolding clear_expired_block update_algo
on_update b old new now =
    let b' = clear_expired_block b now in record b' { algo = update_algo b'.algo old new now }
