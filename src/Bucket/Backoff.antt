-- ===== src/Bucket/Backoff.antt =====
-- The backoff of a bucket in src/bucket.rs, over its methods.
use shared_rate_limiter.Base.{
  ◌-◌, ◌≤◌, ◌<◌, ◌≡◌, refl, inl, inr, max, if◌then◌else◌, leb, Option, none, some, Option-cases,
  err, arith,
}
use shared_rate_limiter.Types.{Key, Duration, Permit, Outcome, rate_limited_feedback, Scope}
use shared_rate_limiter.Cost.{Cost}
use shared_rate_limiter.Config.{AlgorithmConfig}
use shared_rate_limiter.Bucket.{
  BucketState, BucketDeny, BucketDenyReason, remaining_block, clear_expired_block, try_reserve,
  block_on_feedback, apply_blocked_until, refund, commit, on_update,
}

-- The end of a backoff, 0 without one.
abbrev pub ends : Option Duration → Duration
ends none = 0
ends (some until) = until

-- A backoff that has not ended is not cleared.
remaining_lem :
    (b : BucketState) (now : Duration)
    → now < ends b.blocked
    → remaining_block (clear_expired_block b now).blocked now ≡ some (ends b.blocked - now)
unfolding clear_expired_block remaining_block
remaining_lem b now h = go b.blocked h
  where
    go :
        (o : Option Duration)
        → now < ends o
        → remaining_block
            (elim o [ none ↦ none | some until ↦ if leb until now then none else some until ])
            now
          ≡ some (ends o - now)
    go none h = absurd (omega (arith, h))
    go (some until) h = ground (arith, h)

-- A bucket under a backoff denies, with the rest of the wait.
pub blocked_reserve :
    (b : BucketState) (k : Key) (eff : AlgorithmConfig) (cost : Cost) (now : Duration)
    → now < ends b.blocked
    → (d : BucketDeny) × (d.deny.retry_after ≡ ends b.blocked - now)
      × ((try_reserve b k eff cost now).0 ≡ err d)
unfolding try_reserve
blocked_reserve b k eff cost now h = (
  record {
    deny = record { retry_after = ends b.blocked - now };
    reason = BucketDenyReason.blocked_until;
  },
  refl,
  rw (remaining_lem b now h, try_reserve) refl,
)

-- A bucket with a backoff that lasts to `until` at least keeps it so at every time before, whatever
-- is called.
module _ (until : Duration) where
  cleared_ends :
      (b : BucketState) (now : Duration)
      → now < until
      → until ≤ ends b.blocked
      → until ≤ ends (clear_expired_block b now).blocked
  unfolding clear_expired_block
  cleared_ends b now early h = go b.blocked h
    where
      go :
          (o : Option Duration)
          → until ≤ ends o
          → until
            ≤ ends (elim o [ none ↦ none | some end ↦ if leb end now then none else some end ])
      go none h' = h'
      go (some end) h' = ground (arith, h', early)

  pub apply_blocked_until-ends :
      (b : BucketState) (other : Duration)
      → until ≤ ends b.blocked
      → until ≤ ends (apply_blocked_until b other).blocked
  unfolding apply_blocked_until
  apply_blocked_until-ends b other h = go b.blocked h
    where
      go :
          (o : Option Duration)
          → until ≤ ends o
          → until ≤ elim o [ none ↦ other | some cur ↦ max cur other ]
      go none h' = omega (arith, h')
      go (some cur) h' = omega (arith, h')

  pub apply_blocked_until-reaches :
      (b : BucketState) → until ≤ ends (apply_blocked_until b until).blocked
  unfolding apply_blocked_until
  apply_blocked_until-reaches b = go b.blocked
    where
      go : (o : Option Duration) → until ≤ elim o [ none ↦ until | some cur ↦ max cur until ]
      go none = omega arith
      go (some cur) = omega arith

  pub try_reserve-ends :
      (b : BucketState) (k : Key) (algo : AlgorithmConfig) (cost : Cost) (now : Duration)
      → now < until
      → until ≤ ends b.blocked
      → until ≤ ends (try_reserve b k algo cost now).1.blocked
  unfolding try_reserve
  try_reserve-ends b k algo cost now early h =
      let kept = cleared_ends b now early h in
      elim (Option-cases (remaining_block (clear_expired_block b now).blocked now)) [
        | inl free ↦ rw (free, try_reserve) kept
        | inr (wait, e) ↦ rw (e, try_reserve) kept
      ]

  pub refund-ends :
      (b : BucketState) (p : Permit) (now : Duration) (algo : AlgorithmConfig)
      → now < until
      → until ≤ ends b.blocked
      → until ≤ ends (refund b p now algo).blocked
  unfolding refund
  refund-ends b p now algo early h = cleared_ends b now early h

  block_on_feedback-ends :
      (b : BucketState) (outcome : Outcome) (now : Duration)
      → until ≤ ends b.blocked
      → until ≤ ends (block_on_feedback b outcome now).blocked
  unfolding block_on_feedback
  block_on_feedback-ends b (rate_limited_feedback retry_after Scope.key hint) now h =
      apply_blocked_until-ends b _ h
  block_on_feedback-ends b _ now h = h

  pub commit-ends :
      (b : BucketState) (p : Permit) (outcome : Outcome) (now : Duration) (algo : AlgorithmConfig)
      → now < until
      → until ≤ ends b.blocked
      → until ≤ ends (commit b p outcome now algo).blocked
  unfolding commit
  commit-ends b p outcome now algo early h =
      block_on_feedback-ends (clear_expired_block b now) outcome now (cleared_ends b now early h)

  pub on_update-ends :
      (b : BucketState) (old new : AlgorithmConfig) (now : Duration)
      → now < until
      → until ≤ ends b.blocked
      → until ≤ ends (on_update b old new now).blocked
  unfolding on_update
  on_update-ends b old new now early h = cleared_ends b now early h
