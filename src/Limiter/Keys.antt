-- ===== src/Limiter/Keys.antt =====
-- src/limiter.rs: the map of buckets and the bound on its keys. `fifo` holds the keys in the order
-- of their creation.
use shared_rate_limiter.Base.{
  nat_eq, ℕ, if◌then◌else◌, ltb, Option, none, some, Result, ok, err, List, [], ◌∷◌, ◌++◌, suc,
  zero,
}
use shared_rate_limiter.Word.{nanos_per_sec}
use shared_rate_limiter.Types.{Key, Duration, Deny}
use shared_rate_limiter.Cost.{Cost}
use shared_rate_limiter.Config.{AlgorithmConfig, deny_new_key, evict_oldest_key}
use shared_rate_limiter.Observer.{DenyReason}
use shared_rate_limiter.HashMap
use shared_rate_limiter.HashMap.{HashMap}
use shared_rate_limiter.Bucket
use shared_rate_limiter.Bucket.{BucketState, BucketDeny, BucketDenyReason, remaining_block}
use shared_rate_limiter.Limiter.State.{RateLimiter, deny_to}

unfoldable pub retry_after_on_new_key_deny : RateLimiter → Duration
retry_after_on_new_key_deny rl = elim rl.cfg.algorithm [
  | AlgorithmConfig.fixed_window _ window ↦ window
  | AlgorithmConfig.token_bucket _ _ ↦ nanos_per_sec
]

-- The loop over `fifo` that looks for a key without outstanding reservations.
unfoldable pub evict_idx : HashMap Key BucketState → List Key → Option ℕ
unfolding HashMap.lookup Bucket.has_outstanding
evict_idx buckets [] = none
evict_idx buckets (k ∷ fifo) =
    let later : Option ℕ = elim (evict_idx buckets fifo) [
      | none ↦ none
      | some idx ↦ some (suc idx)
    ] in
    elim (HashMap.lookup k buckets) [
      | some st ↦ if Bucket.has_outstanding st then later else some 0
      | none ↦ some 0
    ]

-- `VecDeque::remove`.
unfoldable pub remove_at : List Key → ℕ → Option (Key × List Key)
remove_at [] idx = none
remove_at (k ∷ fifo) zero = some (k, fifo)
remove_at (k ∷ fifo) (suc idx) = elim (remove_at fifo idx) [
  | none ↦ none
  | some (old, rest) ↦ some (old, k ∷ rest)
]

-- The arm of `EvictOldestKey`: the limiter without the oldest key that may go, if there is one.
unfoldable pub evict_oldest : RateLimiter → Option RateLimiter
unfolding evict_idx remove_at HashMap.remove
evict_oldest rl = elim (evict_idx rl.buckets rl.fifo) [
  | none ↦ none
  | some idx ↦ elim (remove_at rl.fifo idx) [
    | none ↦ none
    | some (old, fifo) ↦ some (record rl { fifo = fifo; buckets = HashMap.remove old rl.buckets })
  ]
]

abbrev pub deny_new :
    RateLimiter → Key → Key → Cost → Duration → Result (Unit {0}) Deny × RateLimiter
deny_new rl route_key bucket_key cost now =
    let (deny, rl') =
      deny_to rl route_key bucket_key cost now (retry_after_on_new_key_deny rl)
        DenyReason.key_cardinality_bound in
    (err deny, rl')

unfoldable pub ensure_bucket_capacity :
    RateLimiter → Key → Key → Cost → Duration → Result (Unit {0}) Deny × RateLimiter
unfolding deny_to retry_after_on_new_key_deny evict_oldest HashMap.contains_key
ensure_bucket_capacity rl route_key bucket_key cost now =
    if HashMap.contains_key bucket_key rl.buckets then (ok tt, rl) else elim rl.cfg.max_keys [
      | none ↦ (ok tt, rl)
      | some max_keys ↦
          if ltb (HashMap.len rl.buckets) max_keys
          then (ok tt, rl)
          else elim rl.cfg.overflow_policy [
            | deny_new_key ↦ deny_new rl route_key bucket_key cost now
            | evict_oldest_key ↦ elim (evict_oldest rl) [
              | some evicted ↦ (ok tt, evicted)
              | none ↦ deny_new rl route_key bucket_key cost now
            ]
          ]
    ]

-- `entry(bucket_key)` with a new bucket for a vacant entry.
unfoldable pub bucket_entry : RateLimiter → Key → Duration → BucketState × RateLimiter
unfolding HashMap.lookup HashMap.insert Bucket.new
bucket_entry rl bucket_key now = elim (HashMap.lookup bucket_key rl.buckets) [
  | some b ↦ (b, rl)
  | none ↦
      let b = Bucket.new now rl.cfg.algorithm in
      (
        b,
        record rl {
          fifo = rl.fifo ++ bucket_key ∷ [];
          buckets = HashMap.insert bucket_key b rl.buckets;
        },
      )
]

unfoldable pub put_bucket : RateLimiter → Key → BucketState → RateLimiter
unfolding HashMap.insert
put_bucket rl bucket_key b = record rl { buckets = HashMap.insert bucket_key b rl.buckets }

-- `get_mut`, and what is done to the bucket if it is there.
unfoldable pub with_bucket : RateLimiter → Key → (BucketState → BucketState) → RateLimiter
unfolding HashMap.lookup put_bucket
with_bucket rl k f = elim (HashMap.lookup k rl.buckets) [
  | none ↦ rl
  | some b ↦ put_bucket rl k (f b)
]
