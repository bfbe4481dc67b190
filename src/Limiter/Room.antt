-- ===== src/Limiter/Room.antt =====
-- A limiter of src/limiter.rs without a bound on its keys: there is room for each key.
use shared_rate_limiter.Base.{nat_eq, ◌≡◌, refl, ap, inl, inr, none, Bool-cases, ok, err}
use shared_rate_limiter.Types.{Key, Duration}
use shared_rate_limiter.Cost
use shared_rate_limiter.Cost.{Cost}
use shared_rate_limiter.HashMap
use shared_rate_limiter.Bucket
use shared_rate_limiter.Limiter.State.{RateLimiter}
use shared_rate_limiter.Limiter.Keys.{ensure_bucket_capacity, bucket_entry, put_bucket}
use shared_rate_limiter.Limiter.Feedback.{block_bucket}

-- Without a bound there is room.
pub unbounded_room :
    (rl : RateLimiter) (route_key k : Key) (cost : Cost) (now : Duration)
    → rl.cfg.max_keys ≡ none
    → ensure_bucket_capacity rl route_key k cost now ≡ (ok tt, rl)
unfolding ensure_bucket_capacity
unbounded_room rl route_key k cost now unbounded =
    elim (Bool-cases (HashMap.contains_key k rl.buckets)) [
      | inl there ↦ rw (there, ensure_bucket_capacity) refl
      | inr absent ↦ rw (absent, ensure_bucket_capacity) (simp unbounded)
    ]

-- The body of `block_bucket` where there is room.
pub unbounded_block :
    (rl : RateLimiter) (route_key i : Key) (now other : Duration)
    → rl.cfg.max_keys ≡ none
    → block_bucket rl route_key i now other
      ≡ put_bucket
          (bucket_entry rl i now).1
          i
          (Bucket.apply_blocked_until (bucket_entry rl i now).0 other)
unfolding block_bucket
unbounded_block rl route_key i now other unbounded =
    ap
      (λ room. elim room.0 as (λ _. RateLimiter) [
        | err _ ↦ room.1
        | ok _ ↦
            let r = bucket_entry room.1 i now in
            put_bucket r.1 i (Bucket.apply_blocked_until r.0 other)
      ])
      (unbounded_room rl route_key i Cost.one now unbounded)
