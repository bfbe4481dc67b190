-- ===== src/Bucket/Usage.antt =====
-- What a window of src/bucket.rs has spent, against the permits that were used in it.
use shared_rate_limiter.Base.{
  ℕ, ◌+◌, ◌≤◌, ◌<◌, ◌≡◌, ◌≢◌, refl, sym, subst, ap, ◌∙◌, inl, inr, if◌then◌else◌, ◌==◌, ==_iff, leb,
  leb→le, true, ◌⊎◌, suc, zero, Option-cases, Bool-cases, List, [], ◌∷◌, arith,
}
use shared_rate_limiter.Word.{duration_max, add_duration}
use shared_rate_limiter.Types.{Key, Duration, Permit, PermitMeta}
use shared_rate_limiter.Cost.{Cost, get}
use shared_rate_limiter.Config.{AlgorithmConfig}
use shared_rate_limiter.FixedWindow
use shared_rate_limiter.FixedWindow.{FixedWindowState, maybe_reset_window, window_start_for}
use shared_rate_limiter.FixedWindow.Alignment.{maybe_reset_window_lem, window_start_for_holds}
use shared_rate_limiter.Bucket
use shared_rate_limiter.Bucket.{
  BucketState, BucketDeny, AlgoState, clear_expired_block, remaining_block, reserve_window,
  reserve_algo, refund_window, refund_algo, update_algo,
}

-- The cost of a permit, if it was issued in the window that starts at `t`.
abbrev pub charge : Duration → Permit → ℕ
charge t p = elim p.meta [
  | PermitMeta.fixed_window start ↦ if start == t then get p.cost else 0
  | PermitMeta.token_bucket ↦ 0
]

-- The costs of a key's permits that were issued in the window that starts at `t`.
abbrev pub charged : Key → Duration → List Permit → ℕ
charged k t [] = 0
charged k t (p ∷ ps) = (if p.key == k then charge t p else 0) + charged k t ps

-- An algorithm of windows of the length.
abbrev pub HasLength : Duration → AlgorithmConfig → Type 0
HasLength window (AlgorithmConfig.fixed_window max w) = w ≡ window
HasLength window (AlgorithmConfig.token_bucket capacity rate) = ⊥

-- `used t` is what was used in the window that starts at `t`: in the present window, what it has spent,
-- and nothing in those to come.
pub record Uses (window : Duration) (used : Duration → ℕ) (s : FixedWindowState) : Type 0 where
  pub spends : used s.window_start ≡ s.spent
  pub later : (t : Duration) → s.window_start < t → used t ≡ 0
  pub room : s.window_start + window ≤ duration_max

abbrev pub UsesState : Duration → (Duration → ℕ) → AlgoState → Type 0
UsesState window used (AlgoState.fixed_window s) = Uses window used s
UsesState window used (AlgoState.token_bucket s) = ⊥

eq_or_ne : (n : ℕ) → (n ≡ 0) ⊎ (n ≢ 0)
eq_or_ne zero = inl refl
eq_or_ne (suc n) = inr (λ e. omega (arith, e))

le_or_lt : (a b : ℕ) → (a ≤ b) ⊎ (b < a)
le_or_lt a b = elim (Bool-cases (leb a b)) [
  | inl le ↦ inl (leb→le a b le)
  | inr gt ↦ inr (ground (arith, gt))
]

reserve_window_lem :
    (s : FixedWindowState) (k : Key) (max window : ℕ) (cost : Cost) (now : Duration)
    → ((reserve_window s k max window cost now).1.window_start ≡ s.window_start)
      × ((reserve_window s k max window cost now).1.spent ≡ s.spent)
unfolding reserve_window
reserve_window_lem s k max window cost now = ground arith

refund_window_kept :
    (s : FixedWindowState) (start : Duration) (cost : Cost)
    → ((refund_window s start cost).window_start ≡ s.window_start)
      × ((refund_window s start cost).spent ≡ s.spent)
unfolding refund_window
refund_window_kept s start cost = ground arith

module _ (window : Duration) (used : Duration → ℕ) where
  kept-Uses :
      (s s' : FixedWindowState)
      → s'.window_start ≡ s.window_start
      → s'.spent ≡ s.spent
      → Uses window used s
      → Uses window used s'
  kept-Uses s s' start spent u = record {
    spends = ap used start ∙ u.spends ∙ sym spent;
    later = λ t h. u.later t (omega (arith, h, start));
    room = omega (arith, u.room, start);
  }

  -- A window of a time in which, and after which, nothing was used.
  new-Uses :
      (now : Duration)
      → 0 < window
      → now + window ≤ duration_max
      → ((t : Duration) → now < t + window → used t ≡ 0)
      → Uses window used (FixedWindow.new now window)
  unfolding FixedWindow.new
  new-Uses now pos early unused =
      let (from, to) = window_start_for_holds now window pos (omega (arith, early)) in
      record {
        spends = unused (window_start_for now window) to;
        later = λ t h. unused t (omega (arith, h, to));
        room = omega (arith, from, early);
      }

  -- A window that is left is left for a later one.
  reset-Uses :
      (s : FixedWindowState) (now : Duration)
      → 0 < window
      → now + window ≤ duration_max
      → Uses window used s
      → Uses window used (maybe_reset_window s now window)
  reset-Uses s now pos early u =
      let (busy, present, over) = maybe_reset_window_lem s now window in
      elim (eq_or_ne s.reserved) [
        | inr out ↦ subst (Uses window used) (sym (busy out)) u
        | inl idle ↦ elim (le_or_lt (add_duration s.window_start window) now) [
          | inr early' ↦ subst (Uses window used) (sym (present early')) u
          | inl ended ↦
              subst (Uses window used) (sym (over idle ended))
                (new-Uses now pos early (λ t h. u.later t (omega (arith, h, ended, u.room, early))))
        ]
      ]

  reserve-Uses :
      (s : FixedWindowState) (k : Key) (max : ℕ) (cost : Cost) (now : Duration)
      → Uses window used s
      → Uses window used (reserve_window s k max window cost now).1
  reserve-Uses s k max cost now u =
      let (start, spent) = reserve_window_lem s k max window cost now in kept-Uses s _ start spent u

  reserve_algo-Uses :
      (state : AlgoState) (k : Key) (eff : AlgorithmConfig) (cost : Cost) (now : Duration)
      → HasLength window eff
      → 0 < window
      → now + window ≤ duration_max
      → UsesState window used state
      → UsesState window used (reserve_algo state k eff cost now).1
  unfolding reserve_algo
  reserve_algo-Uses (AlgoState.fixed_window s) k (AlgorithmConfig.fixed_window max w) cost now len
        pos early u =
      rw len (
        reserve-Uses (maybe_reset_window s now window) k max cost now
          (reset-Uses s now pos early u))
  reserve_algo-Uses _ k (AlgorithmConfig.token_bucket c r) cost now len pos early u = absurd len
  reserve_algo-Uses (AlgoState.token_bucket s) k _ cost now len pos early u = absurd u

  refund_algo-Uses :
      (state : AlgoState) (p : Permit) (now : Duration) (algo : AlgorithmConfig) (meta : PermitMeta)
      → HasLength window algo
      → 0 < window
      → now + window ≤ duration_max
      → UsesState window used state
      → UsesState window used (refund_algo state p now algo meta)
  unfolding refund_algo
  refund_algo-Uses (AlgoState.fixed_window s) p now (AlgorithmConfig.fixed_window max w)
        (PermitMeta.fixed_window start) len pos early u =
      rw len (
        let (same, spent) = refund_window_kept (maybe_reset_window s now window) start p.cost in
        kept-Uses (maybe_reset_window s now window) _ same spent (reset-Uses s now pos early u))
  refund_algo-Uses (AlgoState.fixed_window s) p now (AlgorithmConfig.fixed_window max w)
        PermitMeta.token_bucket len pos early u =
      u
  refund_algo-Uses _ p now (AlgorithmConfig.token_bucket c r) meta len pos early u = absurd len
  refund_algo-Uses (AlgoState.token_bucket s) p now _ meta len pos early u = absurd u

  update_algo-Uses :
      (state : AlgoState) (old new : AlgorithmConfig) (now : Duration)
      → HasLength window old
      → HasLength window new
      → UsesState window used state
      → UsesState window used (update_algo state old new now)
  unfolding update_algo
  update_algo-Uses (AlgoState.fixed_window s) (AlgorithmConfig.fixed_window m w)
        (AlgorithmConfig.fixed_window m' w') now len len' u =
      let same : (w == w') ≡ true = (==_iff w w').1 (len ∙ sym len') in rw (same) u
  update_algo-Uses _ (AlgorithmConfig.token_bucket c r) new now len len' u = absurd len
  update_algo-Uses _ (AlgorithmConfig.fixed_window m w) (AlgorithmConfig.token_bucket c r) now len
        len' u =
      absurd len'
  update_algo-Uses (AlgoState.token_bucket s) _ _ now len len' u = absurd u

  pub try_reserve-Uses :
      (b : BucketState) (k : Key) (eff : AlgorithmConfig) (cost : Cost) (now : Duration)
      → HasLength window eff
      → 0 < window
      → now + window ≤ duration_max
      → UsesState window used b.algo
      → UsesState window used (Bucket.try_reserve b k eff cost now).1.algo
  unfolding Bucket.try_reserve clear_expired_block
  try_reserve-Uses b k eff cost now len pos early u =
      elim (Option-cases (remaining_block (clear_expired_block b now).blocked now)) [
        | inl free ↦
            rw (free, Bucket.try_reserve) (reserve_algo-Uses b.algo k eff cost now len pos early u)
        | inr (wait, e) ↦ rw (e, Bucket.try_reserve) u
      ]

  pub refund-Uses :
      (b : BucketState) (p : Permit) (now : Duration) (algo : AlgorithmConfig)
      → HasLength window algo
      → 0 < window
      → now + window ≤ duration_max
      → UsesState window used b.algo
      → UsesState window used (Bucket.refund b p now algo).algo
  unfolding Bucket.refund clear_expired_block
  refund-Uses b p now algo len pos early u =
      refund_algo-Uses b.algo p now algo p.meta len pos early u

  pub on_update-Uses :
      (b : BucketState) (old new : AlgorithmConfig) (now : Duration)
      → HasLength window old
      → HasLength window new
      → UsesState window used b.algo
      → UsesState window used (Bucket.on_update b old new now).algo
  unfolding Bucket.on_update clear_expired_block
  on_update-Uses b old new now len len' u = update_algo-Uses b.algo old new now len len' u

  pub fresh-Uses :
      (algo : AlgorithmConfig) (now : Duration)
      → HasLength window algo
      → 0 < window
      → now + window ≤ duration_max
      → ((t : Duration) → used t ≡ 0)
      → UsesState window used (Bucket.new now algo).algo
  unfolding Bucket.new Bucket.new_algo
  fresh-Uses (AlgorithmConfig.fixed_window max w) now len pos early unused =
      subst (λ v. Uses window used (FixedWindow.new now v)) (sym len)
        (new-Uses now pos early (λ t h. unused t))
  fresh-Uses (AlgorithmConfig.token_bucket c r) now len pos early unused = absurd len
