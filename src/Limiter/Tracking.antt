-- ===== src/Limiter/Tracking.antt =====
-- The bound on the keys of src/limiter.rs, and the queue of the keys beside the map of the buckets.
use shared_rate_limiter.Base.{
  ◌≢◌, ℕ, suc, zero, ◌≤◌, ◌<◌, ◌≡◌, refl, sym, ap, ◌⊎◌, inl, inr, true, Option, none, some, ok, err,
  List, [], ◌∷◌, length, arith, nat_eq, All, Option-cases,
}
use shared_rate_limiter.Types.{Key, Duration}
use shared_rate_limiter.Cost.{Cost}
use shared_rate_limiter.HashMap
use shared_rate_limiter.HashMap.{HashMap, keys, len}
use shared_rate_limiter.HashMap.Laws.{IsDistinct, IsDistinct-remove, len-keys}
use shared_rate_limiter.Bucket.{BucketState}
use shared_rate_limiter.Limiter.State.{RateLimiter, deny_to}
use shared_rate_limiter.Limiter.Keys.{remove_at, ensure_bucket_capacity}
use shared_rate_limiter.Limiter.Eviction.{Room, ensure-cases}

remove_at-All :
    (P : Key → Type 0) (ks : List Key) (idx : ℕ) (old : Key) (rest : List Key)
    → remove_at ks idx ≡ some (old, rest)
    → All P ks
    → P old × All P rest
unfolding remove_at
remove_at-All P [] idx old rest taken h = cc
remove_at-All P (k ∷ ks) zero old rest taken h = ground (arith, h)
remove_at-All P (k ∷ ks) (suc idx) old rest taken h = elim (Option-cases (remove_at ks idx)) [
  | inl e ↦ absurd (ground (arith, e))
  | inr ((o, r), e) ↦
      let (po, pr) = remove_at-All P ks idx o r e h.1 in ground (arith, e, po, pr, h.0)
]

-- What `VecDeque::remove` takes out of the queue is what `HashMap::remove` takes out of the map.
remove_at-keys :
    (m : HashMap Key BucketState) (idx : ℕ) (old : Key) (rest : List Key)
    → IsDistinct (keys m)
    → remove_at (keys m) idx ≡ some (old, rest)
    → (keys (HashMap.remove old m) ≡ rest) × (length (keys m) ≡ suc (length rest))
unfolding remove_at HashMap.remove
remove_at-keys [] idx old rest d taken = cc
remove_at-keys ((k, b) ∷ m) zero old rest d taken = (ground arith, ground arith)
remove_at-keys ((k, b) ∷ m) (suc idx) old rest d taken =
    elim (Option-cases (remove_at (keys m) idx)) [
      | inl e ↦ absurd (ground (arith, e))
      | inr ((o, r), e) ↦
          let apart = (remove_at-All (λ j. j ≢ k) (keys m) idx o r e d.0).0 in
          let (kept, shorter) = remove_at-keys m idx o r d.1 e in
          ground (arith, e, apart, kept, shorter)
    ]

-- A number within an optional bound.
abbrev pub Within : Option ℕ → ℕ → Type 0
Within none k = Unit
Within (some n) k = k ≤ n

pub within : (o : Option ℕ) (k : ℕ) → ((n : ℕ) → o ≡ some n → k ≤ n) → Within o k
within none k h = tt
within (some n) k h = h n refl

pub bound_of : (o : Option ℕ) (k : ℕ) → Within o k → (n : ℕ) → o ≡ some n → k ≤ n
bound_of none k h n e = cc
bound_of (some m) k h n e = ground (arith, h, e)

-- The queue holds the keys of the map, each once, and there are no more than the bound.
pub record IsTracked (rl : RateLimiter) : Type 0 where
  pub queued : rl.fifo ≡ keys rl.buckets
  pub distinct : IsDistinct (keys rl.buckets)
  pub bounded : Within rl.cfg.max_keys (len rl.buckets)

-- There is a bucket for the key, or room for one.
abbrev pub Ready : Key → RateLimiter → Type 0
Ready k rl =
    (HashMap.contains_key k rl.buckets ≡ true)
    ⊎ ((n : ℕ) → rl.cfg.max_keys ≡ some n → len rl.buckets < n)

abbrev pub RoomTracked : Key → Room → Type 0
RoomTracked k (ok _, rl) = IsTracked rl × Ready k rl
RoomTracked k (err _, rl) = IsTracked rl

pub ensure-RoomTracked :
    (rl : RateLimiter) (route_key k : Key) (cost : Cost) (now : Duration)
    → IsTracked rl
    → RoomTracked k (ensure_bucket_capacity rl route_key k cost now)
unfolding deny_to
ensure-RoomTracked rl route_key k cost now h =
    ensure-cases (RoomTracked k) rl route_key k cost now (λ there. (h, inl there))
      (λ free. (h, inr (λ n e. cc))) (λ n e room. (h, inr (λ m e'. ground arith)))
      (λ n e full. record { queued = h.queued; distinct = h.distinct; bounded = h.bounded })
      λ n old rest idx e full idle taken.
        let (kept, shorter) =
          remove_at-keys rl.buckets idx old rest h.distinct (rw h.queued at taken) in
        let fewer : suc (len (HashMap.remove old rl.buckets)) ≤ n = omega (
          arith,
          bound_of rl.cfg.max_keys (len rl.buckets) h.bounded n e,
          shorter,
          ap length kept,
          len-keys rl.buckets,
          len-keys (HashMap.remove old rl.buckets),
        ) in
        (
          record {
            queued = sym kept;
            distinct = IsDistinct-remove old rl.buckets h.distinct;
            bounded =
                within rl.cfg.max_keys (len (HashMap.remove old rl.buckets)) (λ m e'. ground arith);
          },
          inr (λ m e'. ground arith),
        )
