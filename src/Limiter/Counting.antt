-- ===== src/Limiter/Counting.antt =====
-- What finalizing a permit does on src/limiter.rs after any history of calls.
use shared_rate_limiter.Base.{
  ℕ, ◌-◌, ◌≡◌, refl, sym, subst, Option, none, some, List, ◌∷◌, ◌++◌, nat_eq,
}
use shared_rate_limiter.Types.{
  Key, Duration, Permit, PermitMeta, Outcome, rate_limited_feedback, Scope,
}
use shared_rate_limiter.Cost.{get}
use shared_rate_limiter.Config.{AlgorithmConfig, Config, IsAlgorithm}
use shared_rate_limiter.HashMap
use shared_rate_limiter.HashMap.Laws.{lookup-insert_self}
use shared_rate_limiter.FixedWindow.{FixedWindowState}
use shared_rate_limiter.Bucket
use shared_rate_limiter.Bucket.{BucketState, AlgoState}
use shared_rate_limiter.Bucket.Ledger.{Booked}
use shared_rate_limiter.Bucket.Settle.{
  spent_by, commit_window_counts, stamped, block_on_feedback-algo,
}
use shared_rate_limiter.Limiter.State.{RateLimiter}
use shared_rate_limiter.Limiter.Keys.{put_bucket, with_bucket}
use shared_rate_limiter.Limiter.Finalize.{block_on_global, commit}
use shared_rate_limiter.Limiter.Ledger.{held, AtKey}
use shared_rate_limiter.Limiter.Settling.{held-middle, middle-ne-nil}
use shared_rate_limiter.Limiter.History.{World, start, Reach, Reach-IsSound}
use shared_rate_limiter.Limiter.Booking.{IsBooked}

-- The bucket of a key is there, and its window is `s`.
abbrev pub HasWindow : RateLimiter → Key → FixedWindowState → Type 0
HasWindow rl k s =
    (b : BucketState) × (HashMap.lookup k rl.buckets ≡ some b) × (b.algo ≡ AlgoState.fixed_window s)

-- What is left of a window after a commit: the cost is free, and spent unless it was not sent.
abbrev pub committed : FixedWindowState → Permit → Outcome → FixedWindowState
committed s p outcome = record s {
  reserved = s.reserved - get p.cost;
  spent = spent_by outcome s.spent (get p.cost);
}

-- The permits of a key that are out are booked in a bucket.
found :
    (algo : AlgorithmConfig) (o : Option BucketState) (xs : List Permit) (p : Permit)
    (ys : List Permit)
    → AtKey algo o (xs ++ p ∷ ys)
    → (b : BucketState) × (o ≡ some b) × Booked algo b.algo (xs ++ p ∷ ys)
found algo none xs p ys h = absurd (middle-ne-nil xs p ys h)
found algo (some b) xs p ys h = (b, refl, h)

windowed :
    (max window : ℕ) (state : AlgoState) (ps : List Permit)
    → Booked (AlgorithmConfig.fixed_window max window) state ps
    → (s : FixedWindowState) × (state ≡ AlgoState.fixed_window s)
windowed max window (AlgoState.fixed_window s) ps h = (s, refl)
windowed max window (AlgoState.token_bucket s) ps h = elim h [ ]

with_bucket-lookup :
    (rl : RateLimiter) (k : Key) (f : BucketState → BucketState) (b : BucketState)
    → HashMap.lookup k rl.buckets ≡ some b
    → HashMap.lookup k (with_bucket rl k f).buckets ≡ some (f b)
unfolding with_bucket put_bucket
with_bucket-lookup rl k f b e = rw (e, with_bucket) (lookup-insert_self k (f b) rl.buckets)

block_on_global-same :
    (rl : RateLimiter) (outcome : Outcome) (now : Duration)
    → ((block_on_global rl outcome now).buckets ≡ rl.buckets)
      × ((block_on_global rl outcome now).cfg ≡ rl.cfg)
unfolding block_on_global
block_on_global-same rl (rate_limited_feedback retry_after Scope.global hint) now = (refl, refl)
block_on_global-same rl _ now = (refl, refl)

commit-lookup :
    (rl : RateLimiter) (p : Permit) (outcome : Outcome) (now : Duration) (b : BucketState)
    → HashMap.lookup p.key rl.buckets ≡ some b
    → HashMap.lookup p.key (commit rl p outcome now).buckets
      ≡ some (Bucket.commit b p outcome now rl.cfg.algorithm)
unfolding commit block_on_global
commit-lookup rl p (rate_limited_feedback retry_after Scope.global hint) now b e =
    with_bucket-lookup
      (block_on_global rl (rate_limited_feedback retry_after Scope.global hint) now) p.key
      (λ c.
        Bucket.commit c p (rate_limited_feedback retry_after Scope.global hint) now
          rl.cfg.algorithm)
      b e
commit-lookup rl p _ now b e = with_bucket-lookup rl p.key _ b e

bucket-commit_counts :
    (b : BucketState) (max window : ℕ) (outcome : Outcome) (now : Duration) (xs : List Permit)
    (p : Permit) (ys : List Permit)
    → Booked (AlgorithmConfig.fixed_window max window) b.algo (xs ++ p ∷ ys)
    → (s : FixedWindowState) × (b.algo ≡ AlgoState.fixed_window s)
      × (p.meta ≡ PermitMeta.fixed_window s.window_start)
      × ((Bucket.commit b p outcome now (AlgorithmConfig.fixed_window max window)).algo
          ≡ AlgoState.fixed_window (committed s p outcome))
unfolding Bucket.commit Bucket.clear_expired_block
bucket-commit_counts b max window outcome now xs p ys h =
    let (s, e) = windowed max window b.algo (xs ++ p ∷ ys) h in
    let h' = subst (λ a. Booked (AlgorithmConfig.fixed_window max window) a (xs ++ p ∷ ys)) e h in
    (
      s,
      e,
      (stamped s max window now xs p ys h').0.1,
      rw (block_on_feedback-algo, e) (commit_window_counts s max window now xs p ys h' outcome),
    )

-- A commit under a fixed window, on a limiter with its books.
pub booked_counts :
    (rl : RateLimiter) (before : List Permit) (p : Permit) (after : List Permit) (max window : ℕ)
    (outcome : Outcome) (now : Duration)
    → rl.cfg.algorithm ≡ AlgorithmConfig.fixed_window max window
    → IsBooked rl (before ++ p ∷ after)
    → (s : FixedWindowState) × HasWindow rl p.key s
      × (p.meta ≡ PermitMeta.fixed_window s.window_start)
      × HasWindow (commit rl p outcome now) p.key (committed s p outcome)
booked_counts rl before p after max window outcome now fixed h =
    let (b, here, booked) =
      found rl.cfg.algorithm (HashMap.lookup p.key rl.buckets) (held p.key before) p
        (held p.key after)
        (subst (AtKey rl.cfg.algorithm (HashMap.lookup p.key rl.buckets))
          (held-middle p.key before p after refl) (h.accounts.at p.key)) in
    let (s, e, meta, after_commit) =
      bucket-commit_counts b max window outcome now (held p.key before) p (held p.key after)
        (subst (λ a. Booked a b.algo (held p.key before ++ p ∷ held p.key after)) fixed booked) in
    (
      s,
      (b, here, e),
      meta,
      (
        Bucket.commit b p outcome now rl.cfg.algorithm,
        commit-lookup rl p outcome now b here,
        subst
            (λ a.
              (Bucket.commit b p outcome now a).algo
              ≡ AlgoState.fixed_window (committed s p outcome))
            (sym fixed) after_commit,
      ),
    )

-- After any calls on a new limiter of a valid algorithm, a commit of an outstanding permit under a
-- fixed window finds the window that
-- the permit belongs to, frees its cost from what is reserved there, counts it as spent unless the
-- request was not sent, and leaves the rest of the window as it was, whatever the time is.
pub commit_counts :
    (cfg : Config) (started_at : Duration) {w : World} (before : List Permit) (p : Permit)
    (after : List Permit) (max window : ℕ) (outcome : Outcome) (now : Duration)
    → IsAlgorithm cfg.algorithm
    → Reach (start cfg started_at) w
    → w.outstanding ≡ before ++ p ∷ after
    → w.limiter.cfg.algorithm ≡ AlgorithmConfig.fixed_window max window
    → (s : FixedWindowState) × HasWindow w.limiter p.key s
      × (p.meta ≡ PermitMeta.fixed_window s.window_start)
      × HasWindow (commit w.limiter p outcome now) p.key (committed s p outcome)
commit_counts cfg started_at {w} before p after max window outcome now valid r out fixed =
    booked_counts w.limiter before p after max window outcome now fixed
      (subst (IsBooked w.limiter) out (Reach-IsSound cfg started_at valid r))
