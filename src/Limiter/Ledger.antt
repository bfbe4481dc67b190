-- ===== src/Limiter/Ledger.antt =====
-- The buckets of src/limiter.rs against the permits that are outstanding.
use native.Mathlib.Decide.{ℕ_discrete}
use shared_rate_limiter.Base.{
  ◌≤◌, ◌≡◌, ◌≢◌, refl, subst, ◌⊎◌, false, if◌then◌else◌, Option, none, some, List, [], ◌∷◌, ◌++◌,
  arith, nat_eq, ◌==◌,
}
use shared_rate_limiter.Types.{Key, Duration, Permit}
use shared_rate_limiter.Config.{AlgorithmConfig}
use shared_rate_limiter.HashMap
use shared_rate_limiter.HashMap.{HashMap, keys}
use shared_rate_limiter.HashMap.Laws.{
  IsDistinct, lookup-insert_self, lookup-insert_ne, lookup-remove_ne, lookup-remove_self,
  lookup-map_values, any_value-lookup, IsDistinct-insert, IsDistinct-remove, keys-map_values,
}
use shared_rate_limiter.Bucket
use shared_rate_limiter.Bucket.{BucketState, AlgoState}
use shared_rate_limiter.Bucket.Ledger.{total, Booked}
use shared_rate_limiter.Bucket.Update.{KeepsShape, on_update-Booked}
use shared_rate_limiter.Limiter.Eviction.{IsIdle}

-- The permits of one key, in their order.
abbrev pub held : Key → List Permit → List Permit
held k [] = []
held k (p ∷ ps) = if p.key == k then p ∷ held k ps else held k ps

pub held-append : (k : Key) (ps qs : List Permit) → held k (ps ++ qs) ≡ held k ps ++ held k qs
held-append k [] qs = refl
held-append k (p ∷ ps) qs = ground (arith, held-append k ps qs)

pub total-held-le : (k : Key) (ps : List Permit) → total (held k ps) ≤ total ps
total-held-le k [] = omega arith
total-held-le k (p ∷ ps) = ground (arith, total-held-le k ps)

-- A key without a bucket has no outstanding permit.
abbrev pub AtKey : AlgorithmConfig → Option BucketState → List Permit → Type 0
AtKey algo none ps = ps ≡ []
AtKey algo (some b) ps = Booked algo b.algo ps

-- Every bucket accounts for the outstanding permits of its key.
pub record Accounts (algo : AlgorithmConfig) (buckets : HashMap Key BucketState) (ps : List Permit)
    : Type 0 where
  pub distinct : IsDistinct (keys buckets)
  pub at : (k : Key) → AtKey algo (HashMap.lookup k buckets) (held k ps)

-- An idle bucket has no outstanding permit.
Booked-idle :
    (algo : AlgorithmConfig) (state : AlgoState) (ps : List Permit)
    → Booked algo state ps
    → Bucket.algo_outstanding state ≡ false
    → ps ≡ []
unfolding Bucket.algo_outstanding
Booked-idle _ _ [] h idle = refl
Booked-idle (AlgorithmConfig.fixed_window max window) (AlgoState.fixed_window s) (p ∷ ps) h idle =
    absurd (ground (arith, h.0, h.2.0.0.nonzero))
Booked-idle (AlgorithmConfig.token_bucket capacity rate) (AlgoState.token_bucket s) (p ∷ ps) h
      idle =
    absurd (ground (arith, h.0, h.2.0.0.nonzero))
Booked-idle _ _ (p ∷ ps) h idle = elim h [ ]

AtKey-idle :
    (algo : AlgorithmConfig) (o : Option BucketState) (ps : List Permit)
    → AtKey algo o ps
    → IsIdle o
    → ps ≡ []
unfolding Bucket.has_outstanding
AtKey-idle algo none ps h idle = h
AtKey-idle algo (some b) ps h idle = Booked-idle algo b.algo ps h idle

module _ {algo : AlgorithmConfig} {buckets : HashMap Key BucketState} where
  -- A bucket is written at a key whose permits change with it.
  pub Accounts-insert :
      (k : Key) (b : BucketState) (ps qs : List Permit)
      → Accounts algo buckets ps
      → Booked algo b.algo (held k qs)
      → ((j : Key) → k ≢ j → held j qs ≡ held j ps)
      → Accounts algo (HashMap.insert k b buckets) qs
  Accounts-insert k b ps qs h new others = record {
    distinct = IsDistinct-insert k b buckets h.distinct;
    at = λ j. elim (ℕ_discrete k j) [
      | yes same ↦
          subst (λ i. AtKey algo (HashMap.lookup i (HashMap.insert k b buckets)) (held i qs)) same
            (rw (lookup-insert_self k b buckets) new)
      | no apart ↦ rw (lookup-insert_ne k j b buckets apart, others j apart) (h.at j)
    ];
  }

  pub Accounts-remove :
      (old : Key) (ps : List Permit)
      → Accounts algo buckets ps
      → IsIdle (HashMap.lookup old buckets)
      → Accounts algo (HashMap.remove old buckets) ps
  Accounts-remove old ps h idle = record {
    distinct = IsDistinct-remove old buckets h.distinct;
    at = λ j. elim (ℕ_discrete old j) [
      | yes same ↦
          subst (λ i. AtKey algo (HashMap.lookup i (HashMap.remove old buckets)) (held i ps)) same
            (rw (lookup-remove_self old buckets h.distinct)
              (AtKey-idle algo (HashMap.lookup old buckets) (held old ps) (h.at old) idle))
      | no apart ↦ rw (lookup-remove_ne old j buckets apart) (h.at j)
    ];
  }

AtKey-update :
    (old new : AlgorithmConfig) (o : Option BucketState) (now : Duration) (ps : List Permit)
    → AtKey old o ps
    → (ps ≡ []) ⊎ KeepsShape old new
    → AtKey new (elim o [ none ↦ none | some b ↦ some (Bucket.on_update b old new now) ]) ps
AtKey-update old new none now ps h change = h
AtKey-update old new (some b) now ps h change = on_update-Booked old new b now ps h change

-- A change of the configuration that each key's permits survive.
pub Accounts-update :
    (old new : AlgorithmConfig) (buckets : HashMap Key BucketState) (now : Duration)
    (ps : List Permit)
    → Accounts old buckets ps
    → ((k : Key) → (held k ps ≡ []) ⊎ KeepsShape old new)
    → Accounts new (HashMap.map_values (λ b. Bucket.on_update b old new now) buckets) ps
Accounts-update old new buckets now ps h change = record {
  distinct = rw (keys-map_values (λ b. Bucket.on_update b old new now) buckets) h.distinct;
  at = λ k.
      rw (lookup-map_values (λ b. Bucket.on_update b old new now) k buckets)
        (AtKey-update old new (HashMap.lookup k buckets) now (held k ps) (h.at k) (change k));
}

-- Where no bucket is busy, no permit is outstanding.
pub held-idle :
    (algo : AlgorithmConfig) (buckets : HashMap Key BucketState) (ps : List Permit)
    → Accounts algo buckets ps
    → HashMap.any_value Bucket.has_outstanding buckets ≡ false
    → (k : Key) → held k ps ≡ []
held-idle algo buckets ps h idle k =
    AtKey-idle algo (HashMap.lookup k buckets) (held k ps) (h.at k)
      (lookup-IsIdle (HashMap.lookup k buckets) refl)
  where
    lookup-IsIdle : (o : Option BucketState) → HashMap.lookup k buckets ≡ o → IsIdle o
    lookup-IsIdle none e = tt
    lookup-IsIdle (some b) e = any_value-lookup Bucket.has_outstanding k buckets b idle e
