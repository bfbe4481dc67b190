-- ===== src/Bucket/Quota.antt =====
-- The quota of a fixed window in src/bucket.rs.
use shared_rate_limiter.Base.{
  ℕ, ◌+◌, ◌≤◌, ◌≡◌, refl, sym, subst, inl, inr, ◌==◌, Option-cases, if-cases, List, ◌∷◌, ◌++◌,
  Result, arith,
}
use shared_rate_limiter.Word.{u32_max}
use shared_rate_limiter.Types.{
  Key, Duration, Permit, PermitMeta, Outcome, confirmed, not_sent, sent_no_confirm,
  rate_limited_feedback, Scope,
}
use shared_rate_limiter.Cost.{Cost, get}
use shared_rate_limiter.Config.{AlgorithmConfig}
use shared_rate_limiter.Bucket.Ledger.{Booked, total-append}
use shared_rate_limiter.FixedWindow.{FixedWindowState, maybe_reset_window}
use shared_rate_limiter.Bucket
use shared_rate_limiter.Bucket.{
  BucketState, AlgoState, BucketDeny, clear_expired_block, remaining_block, block_on_feedback,
  reserve_window, reserve_algo, refund_window, refund_algo, commit_window, commit_algo,
}

-- What is spent and reserved in a window stays within a maximum.
abbrev pub Quota : ℕ → AlgoState → Type 0
Quota max (AlgoState.fixed_window s) = s.spent + s.reserved ≤ max
Quota max (AlgoState.token_bucket s) = Unit

-- The window reserves the cost of a permit that is out.
abbrev pub Covered : Cost → AlgoState → Type 0
Covered cost (AlgoState.fixed_window s) = get cost ≤ s.reserved
Covered cost (AlgoState.token_bucket s) = Unit

reset-Quota :
    (s : FixedWindowState) (max now window : ℕ)
    → s.spent + s.reserved ≤ max
    → (maybe_reset_window s now window).spent + (maybe_reset_window s now window).reserved ≤ max
unfolding maybe_reset_window
reset-Quota s max now window h = ground (arith, h)

-- A window with a cost reserved is not reset.
reset-Covered :
    (s : FixedWindowState) (cost now window : ℕ)
    → cost ≤ s.reserved
    → (cost ≤ (maybe_reset_window s now window).reserved)
unfolding maybe_reset_window
reset-Covered s cost now window h = ground (arith, h)

reserve_window-Quota :
    (s : FixedWindowState) (k : Key) (max max' window now : ℕ) (cost : Cost)
    → max ≤ u32_max
    → max' ≤ max
    → s.spent + s.reserved ≤ max
    → (reserve_window s k max' window cost now).1.spent
        + (reserve_window s k max' window cost now).1.reserved
      ≤ max
unfolding reserve_window
reserve_window-Quota s k max max' window now cost fits le h = ground (arith, fits, le, h)

commit_window-Quota :
    (s : FixedWindowState) (start : Duration) (cost : Cost) (outcome : Outcome) (max : ℕ)
    → get cost ≤ s.reserved
    → s.spent + s.reserved ≤ max
    → (commit_window s start cost outcome).spent + (commit_window s start cost outcome).reserved
      ≤ max
unfolding commit_window
commit_window-Quota s start cost confirmed max covered h = ground (arith, covered, h)
commit_window-Quota s start cost not_sent max covered h = ground (arith, covered, h)
commit_window-Quota s start cost sent_no_confirm max covered h = ground (arith, covered, h)
commit_window-Quota s start cost (rate_limited_feedback a b c) max covered h =
    ground (arith, covered, h)

refund_window-Quota :
    (s : FixedWindowState) (start : Duration) (cost : Cost) (max : ℕ)
    → s.spent + s.reserved ≤ max
    → (refund_window s start cost).spent + (refund_window s start cost).reserved ≤ max
unfolding refund_window
refund_window-Quota s start cost max h = ground (arith, h)

kept_algo :
    (b : BucketState) (outcome : Outcome) (now : Duration)
    → (block_on_feedback (clear_expired_block b now) outcome now).algo ≡ b.algo
unfolding block_on_feedback clear_expired_block Bucket.apply_blocked_until
kept_algo b (rate_limited_feedback a Scope.key c) now = refl
kept_algo b _ now = refl

-- A permit that is out is covered.
pub Booked-Covered :
    (algo : AlgorithmConfig) (state : AlgoState) (xs : List Permit) (p : Permit) (ys : List Permit)
    → Booked algo state (xs ++ p ∷ ys)
    → Covered p.cost state
Booked-Covered (AlgorithmConfig.fixed_window max window) (AlgoState.fixed_window s) xs p ys h =
    omega (arith, h.0, total-append xs (p ∷ ys))
Booked-Covered _ (AlgoState.token_bucket s) xs p ys h = tt
Booked-Covered (AlgorithmConfig.token_bucket c r) (AlgoState.fixed_window s) xs p ys h = absurd h

-- An algorithm that grants no more than `max` in a window.
abbrev pub Below : ℕ → AlgorithmConfig → Type 0
Below max (AlgorithmConfig.fixed_window max_per_window window) = max_per_window ≤ max
Below max (AlgorithmConfig.token_bucket capacity rate) = Unit

module _ (max : ℕ) (fits : max ≤ u32_max) where
  reserve_algo-Quota :
      (state : AlgoState) (k : Key) (eff : AlgorithmConfig) (cost : Cost) (now : Duration)
      → Below max eff
      → Quota max state
      → Quota max (reserve_algo state k eff cost now).1
  unfolding reserve_algo
  reserve_algo-Quota (AlgoState.fixed_window s) k (AlgorithmConfig.fixed_window max' window) cost
        now le h =
      reserve_window-Quota (maybe_reset_window s now window) k max max' window now cost fits le
        (reset-Quota s max now window h)
  reserve_algo-Quota (AlgoState.token_bucket s) k (AlgorithmConfig.token_bucket capacity rate) cost
        now le h =
      if-cases {A = Result Permit BucketDeny × AlgoState} (λ r. Quota max r.1) (capacity == 0) _ _
        tt tt
  reserve_algo-Quota (AlgoState.fixed_window s) k (AlgorithmConfig.token_bucket capacity rate) cost
        now le h =
      h
  reserve_algo-Quota (AlgoState.token_bucket s) k (AlgorithmConfig.fixed_window max' window) cost
        now le h =
      tt

  pub try_reserve-Quota :
      (b : BucketState) (k : Key) (eff : AlgorithmConfig) (cost : Cost) (now : Duration)
      → Below max eff
      → Quota max b.algo
      → Quota max (Bucket.try_reserve b k eff cost now).1.algo
  unfolding Bucket.try_reserve clear_expired_block
  try_reserve-Quota b k eff cost now le h =
      elim (Option-cases (remaining_block (clear_expired_block b now).blocked now)) [
        | inl free ↦ rw (free, Bucket.try_reserve) (reserve_algo-Quota b.algo k eff cost now le h)
        | inr (wait, e) ↦ rw (e, Bucket.try_reserve) h
      ]

  commit_algo-Quota :
      (state : AlgoState) (p : Permit) (outcome : Outcome) (now : Duration) (algo : AlgorithmConfig)
      (meta : PermitMeta)
      → Covered p.cost state
      → Quota max state
      → Quota max (commit_algo state p outcome now algo meta)
  unfolding commit_algo
  commit_algo-Quota (AlgoState.fixed_window s) p outcome now (AlgorithmConfig.fixed_window m window)
        (PermitMeta.fixed_window start) covered h =
      commit_window-Quota (maybe_reset_window s now window) start p.cost outcome max
        (reset-Covered s (get p.cost) now window covered) (reset-Quota s max now window h)
  commit_algo-Quota (AlgoState.token_bucket s) p outcome now (AlgorithmConfig.token_bucket c r)
        PermitMeta.token_bucket covered h =
      tt
  commit_algo-Quota state p outcome now _ _ covered h = h

  pub commit-Quota :
      (b : BucketState) (p : Permit) (outcome : Outcome) (now : Duration) (algo : AlgorithmConfig)
      → Covered p.cost b.algo
      → Quota max b.algo
      → Quota max (Bucket.commit b p outcome now algo).algo
  unfolding Bucket.commit
  commit-Quota b p outcome now algo covered h =
      subst (λ s. Quota max (commit_algo s p outcome now algo p.meta))
        (sym (kept_algo b outcome now))
        (commit_algo-Quota b.algo p outcome now algo p.meta covered h)

  refund_algo-Quota :
      (state : AlgoState) (p : Permit) (now : Duration) (algo : AlgorithmConfig) (meta : PermitMeta)
      → Quota max state
      → Quota max (refund_algo state p now algo meta)
  unfolding refund_algo
  refund_algo-Quota (AlgoState.fixed_window s) p now (AlgorithmConfig.fixed_window m window)
        (PermitMeta.fixed_window start) h =
      refund_window-Quota (maybe_reset_window s now window) start p.cost max
        (reset-Quota s max now window h)
  refund_algo-Quota (AlgoState.token_bucket s) p now (AlgorithmConfig.token_bucket c r)
        PermitMeta.token_bucket h =
      tt
  refund_algo-Quota state p now _ _ h = h

  pub refund-Quota :
      (b : BucketState) (p : Permit) (now : Duration) (algo : AlgorithmConfig)
      → Quota max b.algo
      → Quota max (Bucket.refund b p now algo).algo
  unfolding Bucket.refund clear_expired_block
  refund-Quota b p now algo h = refund_algo-Quota b.algo p now algo p.meta h
