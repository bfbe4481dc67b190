-- ===== src/Bucket/Ledger.antt =====
-- The accounting of src/bucket.rs against the permits that are outstanding: what `reserved` and
-- `in_flight` stand for.
use shared_rate_limiter.Base.{
  ℕ, ◌+◌, ◌≤◌, ◌≡◌, sym, subst, ◌≢◌, arith, Result, ok, err, ◌==◌, List, [], ◌∷◌, ◌++◌, All,
  if-cases, Option-cases, inl, inr,
}
use shared_rate_limiter.Word.{u32_max, u64_max}
use shared_rate_limiter.Types.{Key, Duration, Permit, PermitMeta}
use shared_rate_limiter.Cost.{Cost, get, IsCost}
use shared_rate_limiter.Config.{AlgorithmConfig}
use shared_rate_limiter.FixedWindow.{FixedWindowState, maybe_reset_window}
use shared_rate_limiter.TokenBucket
use shared_rate_limiter.TokenBucket.{TokenBucketState, refill}
use shared_rate_limiter.Bucket.{
  BucketState, BucketDeny, AlgoState, clear_expired_block, remaining_block, reserve_window,
  token_result, reserve_algo, try_reserve,
}

-- The sum of the costs.
abbrev pub total : List Permit → ℕ
total [] = 0
total (p ∷ ps) = get p.cost + total ps

pub total-append : (ps qs : List Permit) → total (ps ++ qs) ≡ total ps + total qs
total-append [] qs = omega arith
total-append (p ∷ ps) qs = omega (arith, total-append ps qs)

abbrev pub Stamped : PermitMeta → Permit → Type 0
Stamped meta p = IsCost p.cost × (p.meta ≡ meta)

-- The state of a bucket accounts for its outstanding permits: their sum is what is reserved, or in
-- flight, what a window has spent beside it fits a `u32`, and a permit of a window was issued in the bucket's present window.
abbrev pub Booked : AlgorithmConfig → AlgoState → List Permit → Type 0
Booked (AlgorithmConfig.fixed_window max window) (AlgoState.fixed_window s) ps =
    (s.reserved ≡ total ps)
    × (s.spent + total ps ≤ u32_max)
    × All (Stamped (PermitMeta.fixed_window s.window_start)) ps
Booked (AlgorithmConfig.token_bucket capacity rate) (AlgoState.token_bucket s) ps =
    (s.in_flight ≡ total ps) × (total ps ≤ u64_max) × All (Stamped PermitMeta.token_bucket) ps
Booked _ _ ps = ⊥

-- The outstanding permits after an attempt.
abbrev pub add_permit {ℓ} : {E : Type ℓ} → Result Permit E → List Permit → List Permit
add_permit (ok p) ps = p ∷ ps
add_permit (err e) ps = ps

-- `eff` is `algo` with other amounts, as slow start gives it.
abbrev pub Scales : AlgorithmConfig → AlgorithmConfig → Type 0
Scales (AlgorithmConfig.fixed_window max window) (AlgorithmConfig.fixed_window max' window') =
    (max' ≤ u32_max) × (window' ≡ window)
Scales (AlgorithmConfig.token_bucket capacity rate) (AlgorithmConfig.token_bucket capacity' rate') =
    Unit
Scales _ _ = ⊥

pub kept_window :
    (s : FixedWindowState) (now window : Duration)
    → s.reserved ≢ 0
    → maybe_reset_window s now window ≡ s
unfolding maybe_reset_window
kept_window s now window h = ground arith

-- A window that is left behind has no outstanding permit.
pub reset-Booked :
    (s : FixedWindowState) (max now window : ℕ) (ps : List Permit)
    → Booked (AlgorithmConfig.fixed_window max window) (AlgoState.fixed_window s) ps
    → Booked
        (AlgorithmConfig.fixed_window max window)
        (AlgoState.fixed_window (maybe_reset_window s now window))
        ps
unfolding maybe_reset_window
reset-Booked s max now window [] h = ground arith
reset-Booked s max now window (p ∷ ps) h =
    subst
      (λ t. Booked (AlgorithmConfig.fixed_window max window) (AlgoState.fixed_window t) (p ∷ ps))
      (sym (kept_window s now window (omega (arith, h.0, h.2.0.0.nonzero)))) h

reserve_window-Booked :
    (s : FixedWindowState) (k : Key) (max max' window now : ℕ) (cost : Cost) (ps : List Permit)
    → IsCost cost
    → max' ≤ u32_max
    → Booked (AlgorithmConfig.fixed_window max window) (AlgoState.fixed_window s) ps
    → let (res, s') = reserve_window s k max' window cost now in
      Booked
        (AlgorithmConfig.fixed_window max window)
        (AlgoState.fixed_window s')
        (add_permit res ps)
unfolding reserve_window
reserve_window-Booked s k max max' window now cost ps valid fits h = ground (arith, h)

reserve_tokens-Booked :
    (s : TokenBucketState) (k : Key) (capacity rate capacity' rate' now : ℕ) (cost : Cost)
    (ps : List Permit)
    → IsCost cost
    → total ps + get cost ≤ u64_max
    → Booked (AlgorithmConfig.token_bucket capacity rate) (AlgoState.token_bucket s) ps
    → let (res, s') = TokenBucket.try_reserve s capacity' rate' cost now in
      Booked
        (AlgorithmConfig.token_bucket capacity rate)
        (AlgoState.token_bucket s')
        (add_permit (token_result k cost now res) ps)
unfolding TokenBucket.try_reserve token_result
reserve_tokens-Booked s k capacity rate capacity' rate' now cost ps valid fits h = ground (arith, h)

reserve_algo-Booked :
    (algo eff : AlgorithmConfig) (state : AlgoState) (k : Key) (cost : Cost) (now : Duration)
    (ps : List Permit)
    → Scales algo eff
    → IsCost cost
    → total ps + get cost ≤ u64_max
    → Booked algo state ps
    → let (res, state') = reserve_algo state k eff cost now in
      Booked algo state' (add_permit res ps)
unfolding reserve_algo
reserve_algo-Booked (AlgorithmConfig.fixed_window max window)
      (AlgorithmConfig.fixed_window max' window') (AlgoState.fixed_window s) k cost now ps sc valid
      fits h =
    rw sc.1 (
      reserve_window-Booked (maybe_reset_window s now window) k max max' window now cost ps valid
        sc.0 (reset-Booked s max now window ps h))
reserve_algo-Booked (AlgorithmConfig.token_bucket capacity rate)
      (AlgorithmConfig.token_bucket capacity' rate') (AlgoState.token_bucket s) k cost now ps sc
      valid fits h =
    if-cases {A = Result Permit BucketDeny × AlgoState}
      (λ r. Booked (AlgorithmConfig.token_bucket capacity rate) r.1 (add_permit r.0 ps))
      (capacity' == 0) _ _ h
      (reserve_tokens-Booked s k capacity rate capacity' rate' now cost ps valid fits h)
reserve_algo-Booked (AlgorithmConfig.fixed_window _ _) (AlgorithmConfig.token_bucket _ _) state k
      cost now ps sc valid fits h =
    elim sc [ ]
reserve_algo-Booked (AlgorithmConfig.token_bucket _ _) (AlgorithmConfig.fixed_window _ _) state k
      cost now ps sc valid fits h =
    elim sc [ ]
reserve_algo-Booked (AlgorithmConfig.fixed_window _ _) (AlgorithmConfig.fixed_window _ _)
      (AlgoState.token_bucket s) k cost now ps sc valid fits h =
    elim h [ ]
reserve_algo-Booked (AlgorithmConfig.token_bucket _ _) (AlgorithmConfig.token_bucket _ _)
      (AlgoState.fixed_window s) k cost now ps sc valid fits h =
    elim h [ ]

-- An attempt adds the permit that it grants to the outstanding ones, and nothing if it denies.
pub try_reserve-Booked :
    (algo eff : AlgorithmConfig) (b : BucketState) (k : Key) (cost : Cost) (now : Duration)
    (ps : List Permit)
    → Scales algo eff
    → IsCost cost
    → total ps + get cost ≤ u64_max
    → Booked algo b.algo ps
    → let (res, b') = try_reserve b k eff cost now in Booked algo b'.algo (add_permit res ps)
unfolding try_reserve
try_reserve-Booked algo eff b k cost now ps sc valid fits h =
    elim (Option-cases (remaining_block (clear_expired_block b now).blocked now)) [
      | inl open_bucket ↦
          rw open_bucket (reserve_algo-Booked algo eff b.algo k cost now ps sc valid fits h)
      | inr (wait, e) ↦ rw e h
    ]
