-- ===== src/Bucket/Settle.antt =====
-- What `commit` and `refund` of src/bucket.rs do to the accounting when the permit is outstanding.
use shared_rate_limiter.Base.{ℕ, ◌+◌, ◌-◌, ◌≤◌, ◌≡◌, refl, ◌∙◌, ap, arith, List, [], ◌∷◌, ◌++◌, All}
use shared_rate_limiter.Word.{u32_max}
use shared_rate_limiter.Types.{
  Duration, Permit, PermitMeta, Outcome, not_sent, rate_limited_feedback, Scope,
}
use shared_rate_limiter.Cost.{Cost, get}
use shared_rate_limiter.Config.{AlgorithmConfig}
use shared_rate_limiter.FixedWindow.{FixedWindowState, maybe_reset_window}
use shared_rate_limiter.TokenBucket
use shared_rate_limiter.TokenBucket.{TokenBucketState, refill}
use shared_rate_limiter.Bucket.{
  BucketState, AlgoState, refund_window, refund_algo, refund, commit_window, commit_tokens,
  commit_algo, block_on_feedback, commit,
}
use shared_rate_limiter.Bucket.Ledger.{total, total-append, Stamped, Booked, kept_window}

All-middle {ℓ κ} :
    {A : Type ℓ} (P : A → Type κ) (xs : List A) {x : A} (ys : List A)
    → All P (xs ++ x ∷ ys)
    → P x × All P (xs ++ ys)
All-middle P [] ys h = h
All-middle P (y ∷ xs) ys h = let (px, rest) = All-middle P xs ys h.1 in (px, (h.0, rest))

total-middle :
    (ps : List Permit) (p : Permit) (qs : List Permit)
    → total (ps ++ p ∷ qs) ≡ get p.cost + total (ps ++ qs)
total-middle ps p qs = omega (arith, total-append ps (p ∷ qs), total-append ps qs)

-- What an outcome adds to what a window has spent.
abbrev pub spent_by : Outcome → ℕ → ℕ → ℕ
spent_by not_sent spent cost = spent
spent_by _ spent cost = spent + cost

commit_window_lem :
    (s : FixedWindowState) (cost : Cost) (outcome : Outcome)
    → s.spent + get cost ≤ u32_max
    → commit_window s s.window_start cost outcome
      ≡ record s { reserved = s.reserved - get cost; spent = spent_by outcome s.spent (get cost) }
unfolding commit_window
commit_window_lem s cost not_sent h = ground arith
commit_window_lem s cost _ h = ground arith

refund_window_lem :
    (s : FixedWindowState) (cost : Cost)
    → refund_window s s.window_start cost ≡ record s { reserved = s.reserved - get cost }
unfolding refund_window
refund_window_lem s cost = ground arith

spent_by-le : (outcome : Outcome) (spent cost : ℕ) → spent_by outcome spent cost ≤ spent + cost
spent_by-le not_sent spent cost = omega arith
spent_by-le _ spent cost = omega arith

refund-in_flight :
    (s : TokenBucketState) (capacity : ℕ) (cost : Cost) (now : Duration) (rate : ℕ)
    → (TokenBucket.refund s capacity cost now rate).in_flight ≡ s.in_flight - get cost
unfolding TokenBucket.refund
refund-in_flight s capacity cost now rate = ground arith

commit_tokens-in_flight :
    (s : TokenBucketState) (p : Permit) (outcome : Outcome) (now : Duration) (capacity rate : ℕ)
    → (commit_tokens s p outcome now capacity rate).in_flight ≡ s.in_flight - get p.cost
unfolding commit_tokens
commit_tokens-in_flight s p not_sent now capacity rate = refund-in_flight s capacity p.cost now rate
commit_tokens-in_flight s p _ now capacity rate = refl

-- A window with an outstanding permit: the permit is of this window, and is paid for.
module _ (s : FixedWindowState) (max window now : ℕ) (ps : List Permit) (p : Permit)
    (qs : List Permit)
    (h : Booked
      (AlgorithmConfig.fixed_window max window)
      (AlgoState.fixed_window s)
      (ps ++ p ∷ qs)) where
  abbrev algo : AlgorithmConfig
  algo = AlgorithmConfig.fixed_window max window

  pub stamped :
      Stamped (PermitMeta.fixed_window s.window_start) p
      × All (Stamped (PermitMeta.fixed_window s.window_start)) (ps ++ qs)
  stamped = All-middle (Stamped (PermitMeta.fixed_window s.window_start)) ps qs h.2

  kept : maybe_reset_window s now window ≡ s
  kept = kept_window s now window (omega (arith, h.0, total-middle ps p qs, stamped.0.0.nonzero))

  pub commit_window_counts :
      (outcome : Outcome)
      → commit_algo (AlgoState.fixed_window s) p outcome now algo p.meta
        ≡ AlgoState.fixed_window (record s {
          reserved = s.reserved - get p.cost;
          spent = spent_by outcome s.spent (get p.cost);
        })
  unfolding commit_algo
  commit_window_counts outcome = rw stamped.0.1 (
      ap (λ t. AlgoState.fixed_window (commit_window t s.window_start p.cost outcome)) kept
      ∙ ap AlgoState.fixed_window
          (commit_window_lem s p.cost outcome (omega (arith, h.1, total-middle ps p qs))))

  pub refund_window_counts :
      refund_algo (AlgoState.fixed_window s) p now algo p.meta
      ≡ AlgoState.fixed_window (record s { reserved = s.reserved - get p.cost })
  unfolding refund_algo
  refund_window_counts = rw stamped.0.1 (
      ap (λ t. AlgoState.fixed_window (refund_window t s.window_start p.cost)) kept
      ∙ ap AlgoState.fixed_window (refund_window_lem s p.cost))

  commit_window-Booked :
      (outcome : Outcome)
      → Booked algo (commit_algo (AlgoState.fixed_window s) p outcome now algo p.meta) (ps ++ qs)
  commit_window-Booked outcome = rw (commit_window_counts outcome) (
    omega (arith, h.0, total-middle ps p qs),
    omega (arith, h.1, total-middle ps p qs, spent_by-le outcome s.spent (get p.cost)),
    stamped.1,
  )

  refund_window-Booked :
      Booked algo (refund_algo (AlgoState.fixed_window s) p now algo p.meta) (ps ++ qs)
  refund_window-Booked = rw refund_window_counts (
    omega (arith, h.0, total-middle ps p qs),
    omega (arith, h.1, total-middle ps p qs),
    stamped.1,
  )

-- A pool with an outstanding permit.
module _ (s : TokenBucketState) (capacity rate now : ℕ) (ps : List Permit) (p : Permit)
    (qs : List Permit)
    (h : Booked
      (AlgorithmConfig.token_bucket capacity rate)
      (AlgoState.token_bucket s)
      (ps ++ p ∷ qs)) where
  abbrev pool : AlgorithmConfig
  pool = AlgorithmConfig.token_bucket capacity rate

  pool-Stamped :
      Stamped PermitMeta.token_bucket p × All (Stamped PermitMeta.token_bucket) (ps ++ qs)
  pool-Stamped = All-middle (Stamped PermitMeta.token_bucket) ps qs h.2

  commit_tokens-Booked :
      (outcome : Outcome)
      → Booked pool (commit_algo (AlgoState.token_bucket s) p outcome now pool p.meta) (ps ++ qs)
  unfolding commit_algo commit_tokens
  commit_tokens-Booked outcome = rw pool-Stamped.0.1 (
    omega (arith, h.0, total-middle ps p qs, commit_tokens-in_flight s p outcome now capacity rate),
    omega (arith, h.1, total-middle ps p qs),
    pool-Stamped.1,
  )

  refund_tokens-Booked :
      Booked pool (refund_algo (AlgoState.token_bucket s) p now pool p.meta) (ps ++ qs)
  unfolding refund_algo
  refund_tokens-Booked = rw pool-Stamped.0.1 (
    omega (arith, h.0, total-middle ps p qs, refund-in_flight s capacity p.cost now rate),
    omega (arith, h.1, total-middle ps p qs),
    pool-Stamped.1,
  )

pub block_on_feedback-algo :
    (b : BucketState) (outcome : Outcome) (now : Duration)
    → (block_on_feedback b outcome now).algo ≡ b.algo
unfolding block_on_feedback
block_on_feedback-algo b (rate_limited_feedback retry_after Scope.key hint) now = refl
block_on_feedback-algo b _ now = refl

commit_algo-Booked :
    (algo : AlgorithmConfig) (state : AlgoState) (outcome : Outcome) (now : Duration)
    (ps : List Permit) (p : Permit) (qs : List Permit)
    → Booked algo state (ps ++ p ∷ qs)
    → Booked algo (commit_algo state p outcome now algo p.meta) (ps ++ qs)
commit_algo-Booked (AlgorithmConfig.fixed_window max window) (AlgoState.fixed_window s) outcome now
      ps p qs h =
    commit_window-Booked s max window now ps p qs h outcome
commit_algo-Booked (AlgorithmConfig.token_bucket capacity rate) (AlgoState.token_bucket s) outcome
      now ps p qs h =
    commit_tokens-Booked s capacity rate now ps p qs h outcome
commit_algo-Booked _ _ outcome now ps p qs h = elim h [ ]

refund_algo-Booked :
    (algo : AlgorithmConfig) (state : AlgoState) (now : Duration) (ps : List Permit) (p : Permit)
    (qs : List Permit)
    → Booked algo state (ps ++ p ∷ qs)
    → Booked algo (refund_algo state p now algo p.meta) (ps ++ qs)
refund_algo-Booked (AlgorithmConfig.fixed_window max window) (AlgoState.fixed_window s) now ps p qs
      h =
    refund_window-Booked s max window now ps p qs h
refund_algo-Booked (AlgorithmConfig.token_bucket capacity rate) (AlgoState.token_bucket s) now ps p
      qs h =
    refund_tokens-Booked s capacity rate now ps p qs h
refund_algo-Booked _ _ now ps p qs h = elim h [ ]

-- A permit that is finalized is no longer outstanding, whatever the outcome and the time.
pub commit-Booked :
    (algo : AlgorithmConfig) (b : BucketState) (outcome : Outcome) (now : Duration)
    (ps : List Permit) (p : Permit) (qs : List Permit)
    → Booked algo b.algo (ps ++ p ∷ qs)
    → Booked algo (commit b p outcome now algo).algo (ps ++ qs)
unfolding commit
commit-Booked algo b outcome now ps p qs h =
    rw block_on_feedback-algo (commit_algo-Booked algo b.algo outcome now ps p qs h)

pub refund-Booked :
    (algo : AlgorithmConfig) (b : BucketState) (now : Duration) (ps : List Permit) (p : Permit)
    (qs : List Permit)
    → Booked algo b.algo (ps ++ p ∷ qs)
    → Booked algo (refund b p now algo).algo (ps ++ qs)
unfolding refund
refund-Booked algo b now ps p qs h = refund_algo-Booked algo b.algo now ps p qs h
