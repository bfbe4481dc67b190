-- ===== src/Limiter/Eviction.antt =====
-- Which bucket `ensure_bucket_capacity` of src/limiter.rs may remove.
use shared_rate_limiter.Base.{
  ltb→lt, ◌<◌, ◌≤◌, ℕ, suc, ◌≡◌, refl, inl, inr, true, false, if◌then◌else◌, Option, none, some,
  Result, ok, List, [], ◌∷◌, arith, nat_eq, Bool-cases, subst, ltb, sym,
}
use shared_rate_limiter.Types.{Key, Duration, Deny}
use shared_rate_limiter.Cost.{Cost}
use shared_rate_limiter.Config.{OverflowPolicy, deny_new_key, evict_oldest_key}
use shared_rate_limiter.HashMap
use shared_rate_limiter.HashMap.{HashMap}
use shared_rate_limiter.Bucket
use shared_rate_limiter.Bucket.{BucketState}
use shared_rate_limiter.Limiter.State.{RateLimiter}
use shared_rate_limiter.Limiter.Keys.{
  evict_idx, remove_at, evict_oldest, ensure_bucket_capacity, deny_new,
}

-- No reservation is outstanding at the key.
abbrev pub IsIdle : Option BucketState → Type 0
IsIdle none = Unit
IsIdle (some b) = Bucket.has_outstanding b ≡ false

-- The index that is found names an idle key of the queue.
abbrev Evicts : HashMap Key BucketState → List Key → Option ℕ → Type 0
Evicts buckets fifo none = Unit
Evicts buckets fifo (some idx) =
    (old : Key) × (rest : List Key) × (remove_at fifo idx ≡ some (old, rest))
    × IsIdle (HashMap.lookup old buckets)

module _ (buckets : HashMap Key BucketState) where
  Evicts-later :
      (k : Key) (fifo : List Key) (o : Option ℕ)
      → Evicts buckets fifo o
      → Evicts buckets (k ∷ fifo) (elim o [ none ↦ none | some idx ↦ some (suc idx) ])
  unfolding remove_at
  Evicts-later k fifo none h = tt
  Evicts-later k fifo (some idx) (old, rest, taken, idle) = (old, k ∷ rest, rw taken, idle)

  Evicts-pick :
      (k : Key) (fifo : List Key) (o : Option BucketState) (later : Option ℕ)
      → HashMap.lookup k buckets ≡ o
      → Evicts buckets (k ∷ fifo) later
      → Evicts buckets
          (k ∷ fifo)
          (elim o [ some st ↦ if Bucket.has_outstanding st then later else some 0 | none ↦ some 0 ])
  unfolding remove_at
  Evicts-pick k fifo none later e h = (k, fifo, refl, rw e tt)
  Evicts-pick k fifo (some st) later e h = elim (Bool-cases (Bucket.has_outstanding st)) [
    | inl busy ↦ rw busy h
    | inr idle ↦ rw idle (k, fifo, refl, rw e idle)
  ]

  evict_idx-Evicts : (fifo : List Key) → Evicts buckets fifo (evict_idx buckets fifo)
  unfolding evict_idx
  evict_idx-Evicts [] = tt
  evict_idx-Evicts (k ∷ fifo) =
      Evicts-pick k fifo (HashMap.lookup k buckets) _ refl
        (Evicts-later k fifo (evict_idx buckets fifo) (evict_idx-Evicts fifo))

-- The limiter that `evict_oldest` gives lacks one idle key.
abbrev pub Evicted : RateLimiter → Option RateLimiter → Type 0
Evicted rl none = Unit
Evicted rl (some rl') =
    (old : Key) × (rest : List Key) × (rl'
      ≡ record rl { fifo = rest; buckets = HashMap.remove old rl.buckets })
    × IsIdle (HashMap.lookup old rl.buckets)
    × ((idx : ℕ) × (remove_at rl.fifo idx ≡ some (old, rest)))

evict_at-Evicted :
    (rl : RateLimiter) (o : Option ℕ)
    → Evicts rl.buckets rl.fifo o
    → Evicted rl (elim o [
      | none ↦ none
      | some idx ↦ elim (remove_at rl.fifo idx) [
        | none ↦ none
        | some (old, fifo) ↦
            some (record rl { fifo = fifo; buckets = HashMap.remove old rl.buckets })
      ]
    ])
evict_at-Evicted rl none h = tt
evict_at-Evicted rl (some idx) (old, rest, taken, idle) =
    rw taken (old, rest, refl, idle, (idx, taken))

pub evict_oldest-Evicted : (rl : RateLimiter) → Evicted rl (evict_oldest rl)
unfolding evict_oldest
evict_oldest-Evicted rl =
    evict_at-Evicted rl (evict_idx rl.buckets rl.fifo) (evict_idx-Evicts rl.buckets rl.fifo)

abbrev pub Room : Type 0
Room = Result (Unit {0}) Deny × RateLimiter

-- The branches behind the test for the key, with what is known in each.
room-cases {ℓ} :
    (P : Room → Type ℓ) (rl : RateLimiter) (denied : Room) (max_keys : Option ℕ)
    (policy : OverflowPolicy) (oldest : Option RateLimiter)
    → (max_keys ≡ none → P (ok tt, rl))
    → ((n : ℕ) → max_keys ≡ some n → HashMap.len rl.buckets < n → P (ok tt, rl))
    → ((n : ℕ) → max_keys ≡ some n → n ≤ HashMap.len rl.buckets → P denied)
    → ((n : ℕ) (rl' : RateLimiter)
        → max_keys ≡ some n
        → n ≤ HashMap.len rl.buckets
        → oldest ≡ some rl'
        → P (ok tt, rl'))
    → P (elim max_keys as (λ _. Room) [
      | none ↦ (ok tt, rl)
      | some n ↦
          if ltb (HashMap.len rl.buckets) n then (ok tt, rl) else elim policy as (λ _. Room) [
            | deny_new_key ↦ denied
            | evict_oldest_key ↦ elim oldest as (λ _. Room) [
              | some evicted ↦ (ok tt, evicted)
              | none ↦ denied
            ]
          ]
    ])
room-cases P rl denied none policy oldest free below refused evicted = free refl
room-cases P rl denied (some n) policy oldest free below refused evicted =
    elim (Bool-cases (ltb (HashMap.len rl.buckets) n)) [
      | inl room ↦ rw room (below n refl (ltb→lt _ _ room))
      | inr full ↦ rw full (go policy oldest (evicted n) (ground arith))
    ]
  where
    go :
        (q : OverflowPolicy) (o : Option RateLimiter)
        → ((rl' : RateLimiter)
            → some n ≡ some n
            → n ≤ HashMap.len rl.buckets
            → o ≡ some rl'
            → P (ok tt, rl'))
        → n ≤ HashMap.len rl.buckets
        → P (elim q as (λ _. Room) [
          | deny_new_key ↦ denied
          | evict_oldest_key ↦ elim o as (λ _. Room) [
            | some evicted ↦ (ok tt, evicted)
            | none ↦ denied
          ]
        ])
    go deny_new_key o out full = refused n refl full
    go evict_oldest_key none out full = refused n refl full
    go evict_oldest_key (some rl') out full = out rl' refl full refl

-- To prove something of what `ensure_bucket_capacity` gives: the key is there, or there is room for
-- it, and nothing changes; or the bound is reached, and it is denied or an idle key goes.
pub ensure-cases {ℓ} :
    (P : Room → Type ℓ) (rl : RateLimiter) (route_key bucket_key : Key) (cost : Cost)
    (now : Duration)
    → (HashMap.contains_key bucket_key rl.buckets ≡ true → P (ok tt, rl))
    → (rl.cfg.max_keys ≡ none → P (ok tt, rl))
    → ((n : ℕ) → rl.cfg.max_keys ≡ some n → HashMap.len rl.buckets < n → P (ok tt, rl))
    → ((n : ℕ)
        → rl.cfg.max_keys ≡ some n
        → n ≤ HashMap.len rl.buckets
        → P (deny_new rl route_key bucket_key cost now))
    → ((n : ℕ) (old : Key) (rest : List Key) (idx : ℕ)
        → rl.cfg.max_keys ≡ some n
        → n ≤ HashMap.len rl.buckets
        → IsIdle (HashMap.lookup old rl.buckets)
        → remove_at rl.fifo idx ≡ some (old, rest)
        → P (ok tt, record rl { fifo = rest; buckets = HashMap.remove old rl.buckets }))
    → P (ensure_bucket_capacity rl route_key bucket_key cost now)
unfolding ensure_bucket_capacity
ensure-cases P rl route_key bucket_key cost now present free below denied evicted =
    elim (Bool-cases (HashMap.contains_key bucket_key rl.buckets)) [
      | inl there ↦ rw there (present there)
      | inr absent ↦ rw absent (
          room-cases P rl (deny_new rl route_key bucket_key cost now) rl.cfg.max_keys
            rl.cfg.overflow_policy (evict_oldest rl) free below denied
            λ n rl' e full gone.
              let (old, rest, is, idle, (idx, taken)) =
                subst (Evicted rl) gone (evict_oldest-Evicted rl) in
              subst (λ r. P (ok tt, r)) (sym is) (evicted n old rest idx e full idle taken))
    ]

-- The same for what is true of the limiter before and after.
pub ensure-keeps {ℓ} :
    (P : RateLimiter → Type ℓ) (rl : RateLimiter) (route_key bucket_key : Key) (cost : Cost)
    (now : Duration)
    → P rl
    → P (deny_new rl route_key bucket_key cost now).1
    → ((old : Key) (rest : List Key) (idx : ℕ)
        → IsIdle (HashMap.lookup old rl.buckets)
        → remove_at rl.fifo idx ≡ some (old, rest)
        → P (record rl { fifo = rest; buckets = HashMap.remove old rl.buckets }))
    → P (ensure_bucket_capacity rl route_key bucket_key cost now).1
ensure-keeps P rl route_key bucket_key cost now same denied evicted =
    ensure-cases (λ r. P r.1) rl route_key bucket_key cost now (λ _. same) (λ _. same)
      (λ _ _ _. same) (λ _ _ _. denied) (λ _ old rest idx _ _. evicted old rest idx)
