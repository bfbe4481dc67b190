-- ===== src/TokenBucket/Throughput.antt =====
-- A history of calls on one pool of src/token_bucket.rs, at one capacity and one rate.
use shared_rate_limiter.Base.{
  ℕ, ◌+◌, ◌-◌, ◌*◌, ◌/◌, ◌≤◌, arith, is_err, List, [], ◌∷◌, All, if◌then◌else◌,
}
use shared_rate_limiter.Word.{nanos_per_sec}
use shared_rate_limiter.Types.{Duration}
use shared_rate_limiter.Cost.{Cost, get}
use shared_rate_limiter.TokenBucket.{TokenBucketState, refill, try_reserve, refund, commit}
use shared_rate_limiter.TokenBucket.Bounds.{
  refill_pays, reserve_refilled_pays, floor_add, floor_mono, refill-last_update-le,
  reserve_refilled-last_update,
}

pub data Call : Type 0 where
  reserves refunds : Cost → Duration → Call
  commits : Cost → Call

-- The call is made by the time `t`.
abbrev pub By : Duration → Call → Type 0
By t (reserves cost now) = now ≤ t
By t (refunds cost now) = now ≤ t
By t (commits cost) = Unit

-- The pool after some calls, the costs that they granted and the costs that came back.
pub record Account : Type 0 where
  pub pool : TokenBucketState
  pub granted : ℕ
  pub refunded : ℕ

module _ (capacity rate : ℕ) where
  unfoldable pub step : Account → Call → Account
  unfolding try_reserve refund commit
  step a (reserves cost now) =
      let (result, pool) = try_reserve a.pool capacity rate cost now in
      record a { pool = pool; granted = if is_err result then a.granted else a.granted + get cost }
  step a (refunds cost now) = record a {
    pool = refund a.pool capacity cost now rate;
    refunded = a.refunded + get cost;
  }
  step a (commits cost) = record a { pool = commit a.pool cost }

  unfoldable pub run : Account → List Call → Account
  run a [] = a
  run a (c ∷ cs) = run (step a c) cs

  -- `b` stands later than `a`, and granted no more than the time between them pays for.
  record Pays (a b : Account) : Type 0 where
    later : a.pool.last_update ≤ b.pool.last_update
    paid :
        b.pool.credits + b.granted + a.refunded
        ≤ a.pool.credits
          + a.granted
          + b.refunded
          + (b.pool.last_update - a.pool.last_update) * rate / nanos_per_sec

  step-Pays : (a : Account) (c : Call) → Pays a (step a c)
  unfolding step
  step-Pays a (reserves cost now) =
      let s = refill a.pool capacity rate now in
      ground (
        arith,
        refill_pays a.pool capacity rate now,
        reserve_refilled_pays s capacity rate cost,
        reserve_refilled-last_update s capacity rate cost,
      )
  step-Pays a (refunds cost now) = ground (arith, refill_pays a.pool capacity rate now)
  step-Pays a (commits cost) = ground arith

  Pays-trans : (a b c : Account) → Pays a b → Pays b c → Pays a c
  Pays-trans a b c p q = record {
    later = omega arith;
    paid = omega (
      arith,
      floor_add a.pool.last_update b.pool.last_update c.pool.last_update rate p.later q.later,
    );
  }

  run-Pays : (a : Account) (cs : List Call) → Pays a (run a cs)
  unfolding run
  run-Pays a [] = record { later = omega arith; paid = omega arith }
  run-Pays a (c ∷ cs) = Pays-trans a (step a c) _ (step-Pays a c) (run-Pays (step a c) cs)

  step-last_update-le :
      (a : Account) (c : Call) {t : Duration}
      → a.pool.last_update ≤ t
      → By t c
      → (step a c).pool.last_update ≤ t
  unfolding step
  step-last_update-le a (reserves cost now) {t} h b = omega (
    arith,
    reserve_refilled-last_update (refill a.pool capacity rate now) capacity rate cost,
    refill-last_update-le a.pool capacity rate h b,
  )
  step-last_update-le a (refunds cost now) h b = refill-last_update-le a.pool capacity rate h b
  step-last_update-le a (commits cost) h b = h

  run-last_update-le :
      (a : Account) (cs : List Call) {t : Duration}
      → a.pool.last_update ≤ t
      → All (By t) cs
      → (run a cs).pool.last_update ≤ t
  unfolding run
  run-last_update-le a [] h b = h
  run-last_update-le a (c ∷ cs) h b =
      run-last_update-le (step a c) cs (step-last_update-le a c h b.0) b.1

abbrev pub opened : TokenBucketState → Account
opened s = record { pool = s; granted = 0; refunded = 0 }

-- Whatever calls are made by the time `t`, in whatever order and with whatever times, the costs
-- granted exceed the costs refunded by at most the credits that the pool started with and what the
-- rate adds from its last update to `t`.
pub granted-le :
    (capacity rate : ℕ) (s : TokenBucketState) (cs : List Call) (t : Duration)
    → s.last_update ≤ t
    → All (By t) cs
    → let a = run capacity rate (opened s) cs in
      a.granted ≤ s.credits + a.refunded + (t - s.last_update) * rate / nanos_per_sec
granted-le capacity rate s cs t h b =
    let a = run capacity rate (opened s) cs in
    let p = run-Pays capacity rate (opened s) cs in
    omega (
      arith,
      p.paid,
      floor_mono (a.pool.last_update - s.last_update) (t - s.last_update) rate
          (omega (arith, run-last_update-le capacity rate (opened s) cs h b)),
    )
