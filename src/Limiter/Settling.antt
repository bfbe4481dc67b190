-- ===== src/Limiter/Settling.antt =====
-- What `commit` and `refund` of src/limiter.rs do to the accounts of the buckets.
use shared_rate_limiter.Base.{
  ◌≡◌, ◌≢◌, refl, subst, Option, none, some, List, [], ◌∷◌, ◌++◌, arith, nat_eq,
}
use shared_rate_limiter.Types.{Key, Duration, Permit, Outcome, rate_limited_feedback, Scope}
use shared_rate_limiter.HashMap
use shared_rate_limiter.HashMap.{HashMap}
use shared_rate_limiter.Bucket.{BucketState}
use shared_rate_limiter.Bucket.Ledger.{Booked}
use shared_rate_limiter.Bucket.Settle.{commit-Booked, refund-Booked}
use shared_rate_limiter.Limiter.State.{RateLimiter}
use shared_rate_limiter.Limiter.Keys.{put_bucket, with_bucket}
use shared_rate_limiter.Limiter.Finalize.{block_on_global, commit, refund}
use shared_rate_limiter.Limiter.Ledger.{held, held-append, AtKey}
use shared_rate_limiter.Limiter.Booking.{IsBooked, put-IsBooked}

pub held-middle :
    (k : Key) (ps : List Permit) (p : Permit) (qs : List Permit)
    → p.key ≡ k
    → held k (ps ++ p ∷ qs) ≡ held k ps ++ p ∷ held k qs
held-middle k ps p qs e = ground (arith, held-append k ps (p ∷ qs))

held-middle_ne :
    (k : Key) (ps : List Permit) (p : Permit) (qs : List Permit)
    → p.key ≢ k
    → held k (ps ++ qs) ≡ held k (ps ++ p ∷ qs)
held-middle_ne k ps p qs apart = ground (arith, held-append k ps (p ∷ qs), held-append k ps qs)

pub middle-ne-nil {ℓ} : {A : Type ℓ} (xs : List A) (x : A) (ys : List A) → xs ++ x ∷ ys ≢ []
middle-ne-nil [] x ys e = cc
middle-ne-nil (y ∷ xs) x ys e = cc

-- To finalize a permit is to change its bucket, which is there.
with_bucket-IsBooked :
    (rl : RateLimiter) (f : BucketState → BucketState) (ps : List Permit) (p : Permit)
    (qs : List Permit)
    → IsBooked rl (ps ++ p ∷ qs)
    → ((b : BucketState) (xs ys : List Permit)
        → Booked rl.cfg.algorithm b.algo (xs ++ p ∷ ys)
        → Booked rl.cfg.algorithm (f b).algo (xs ++ ys))
    → IsBooked (with_bucket rl p.key f) (ps ++ qs)
unfolding with_bucket
with_bucket-IsBooked rl f ps p qs h settles = go (HashMap.lookup p.key rl.buckets) here
  where
    here :
        AtKey rl.cfg.algorithm
          (HashMap.lookup p.key rl.buckets)
          (held p.key ps ++ p ∷ held p.key qs)
    here =
        subst (AtKey rl.cfg.algorithm (HashMap.lookup p.key rl.buckets))
          (held-middle p.key ps p qs refl) (h.accounts.at p.key)

    go :
        (o : Option BucketState)
        → AtKey rl.cfg.algorithm o (held p.key ps ++ p ∷ held p.key qs)
        → IsBooked
            (elim o as (λ _. RateLimiter) [ none ↦ rl | some b ↦ put_bucket rl p.key (f b) ])
            (ps ++ qs)
    go none e = absurd (middle-ne-nil (held p.key ps) p (held p.key qs) e)
    go (some b) booked =
        put-IsBooked rl p.key (f b) (ps ++ p ∷ qs) (ps ++ qs) h
          (rw (held-append p.key ps qs) (settles b (held p.key ps) (held p.key qs) booked))
          (λ j apart. held-middle_ne j ps p qs apart)

block_on_global-IsBooked :
    (rl : RateLimiter) (outcome : Outcome) (now : Duration) (ps : List Permit)
    → IsBooked rl ps
    → IsBooked (block_on_global rl outcome now) ps
unfolding block_on_global
block_on_global-IsBooked rl (rate_limited_feedback retry_after Scope.global hint) now ps h =
    record { algorithm = h.algorithm; accounts = h.accounts }
block_on_global-IsBooked rl _ now ps h = h

pub commit-IsBooked :
    (rl : RateLimiter) (outcome : Outcome) (now : Duration) (ps : List Permit) (p : Permit)
    (qs : List Permit)
    → IsBooked rl (ps ++ p ∷ qs)
    → IsBooked (commit rl p outcome now) (ps ++ qs)
unfolding commit
commit-IsBooked rl outcome now ps p qs h =
    let rl' = block_on_global rl outcome now in
    with_bucket-IsBooked rl' _ ps p qs (block_on_global-IsBooked rl outcome now _ h)
      (λ b xs ys. commit-Booked rl'.cfg.algorithm b outcome now xs p ys)

pub refund-IsBooked :
    (rl : RateLimiter) (now : Duration) (ps : List Permit) (p : Permit) (qs : List Permit)
    → IsBooked rl (ps ++ p ∷ qs)
    → IsBooked (refund rl p now) (ps ++ qs)
unfolding refund
refund-IsBooked rl now ps p qs h =
    with_bucket-IsBooked rl _ ps p qs h (λ b xs ys. refund-Booked rl.cfg.algorithm b now xs p ys)
