-- ===== src/TokenBucket/Polling.antt =====
-- A caller that asks a pool of src/token_bucket.rs again and again. `refill` rounds down what it
-- adds and moves `last_update` all the same.
use shared_rate_limiter.Base.{
  ℕ, ◌+◌, ◌-◌, ◌*◌, ◌<◌, ◌≡◌, refl, arith, true, is_err, List, [], ◌∷◌, All, if◌then◌else◌,
}
use shared_rate_limiter.Word.{nanos_per_sec}
use shared_rate_limiter.Types.{Duration}
use shared_rate_limiter.Cost.{Cost, get, IsCost}
use shared_rate_limiter.TokenBucket.{TokenBucketState, try_reserve, credits_added}

-- How many of the requests are granted, when each comes the given time behind the one before.
unfoldable pub poll : TokenBucketState → ℕ → ℕ → Cost → Duration → List Duration → ℕ
unfolding try_reserve
poll s capacity rate cost now [] = 0
poll s capacity rate cost now (gap ∷ gaps) =
    let (result, s') = try_reserve s capacity rate cost (now + gap) in
    let rest = poll s' capacity rate cost (now + gap) gaps in
    if is_err result then rest else rest + 1

poll_step :
    (s : TokenBucketState) (capacity rate : ℕ) (cost : Cost) (gap : Duration)
    → IsCost cost
    → s.credits < get cost
    → gap * rate < nanos_per_sec
    → let (result, s') = try_reserve s capacity rate cost (s.last_update + gap) in
      (is_err result ≡ true) × (s'.credits < get cost) × (s'.last_update ≡ s.last_update + gap)
unfolding try_reserve credits_added
poll_step s capacity rate cost gap valid short slow =
    let e : s.last_update + gap - s.last_update ≡ gap = omega arith in
    (ground (arith, e), ground (arith, e), ground (arith, e))

-- A pool that lacks credits for a cost never grants it while each request comes sooner than one
-- credit refills, however many requests there are and however long they go on.
pub poll_starves :
    (s : TokenBucketState) (capacity rate : ℕ) (cost : Cost) (gaps : List Duration)
    → IsCost cost
    → s.credits < get cost
    → All (λ gap. gap * rate < nanos_per_sec) gaps
    → poll s capacity rate cost s.last_update gaps ≡ 0
unfolding poll
poll_starves s capacity rate cost [] valid short slow = refl
poll_starves s capacity rate cost (gap ∷ gaps) valid short slow =
    let (denied, still, later) = poll_step s capacity rate cost gap valid short slow.0 in
    let s' = (try_reserve s capacity rate cost (s.last_update + gap)).1 in
    let rest = poll_starves s' capacity rate cost gaps valid still slow.1 in
    rw denied (rw later at rest)
