-- ===== src/Limiter/Bound.antt =====
-- What `try_acquire` of src/limiter.rs does to the queue, the map and the bound on their keys.
use shared_rate_limiter.Base.{
  ◌≡◌, sym, ap, ◌∙◌, inl, inr, true, false, Result, ok, err, [], ◌∷◌, ◌++◌, arith, nat_eq,
  Option-cases,
}
use shared_rate_limiter.Types.{Key, Duration, Permit, Deny}
use shared_rate_limiter.Cost.{Cost}
use shared_rate_limiter.Config.{AlgorithmConfig}
use shared_rate_limiter.Observer.{DenyReason}
use shared_rate_limiter.HashMap
use shared_rate_limiter.HashMap.{HashMap, keys, len}
use shared_rate_limiter.HashMap.Laws.{
  IsDistinct-insert, keys-insert_present, keys-insert_absent, len-insert, contains_of_some,
  contains_of_none, contains_key-insert_self,
}
use shared_rate_limiter.Bucket
use shared_rate_limiter.Bucket.{BucketState, BucketDeny, remaining_block}
use shared_rate_limiter.Limiter.State.{RateLimiter, deny_to, resolve_bucket_key}
use shared_rate_limiter.Limiter.Keys.{ensure_bucket_capacity, bucket_entry, put_bucket}
use shared_rate_limiter.Limiter.Ramp.{effective_algorithm, slow_start_pre_deny}
use shared_rate_limiter.Limiter.Acquire.{report, reserve_in_bucket, try_acquire}
use shared_rate_limiter.Limiter.Eviction.{Room}
use shared_rate_limiter.Limiter.Tracking.{
  IsTracked, within, bound_of, Ready, RoomTracked, ensure-RoomTracked,
}

-- A bucket that is there is overwritten.
pub put-IsTracked :
    (rl : RateLimiter) (k : Key) (b : BucketState)
    → IsTracked rl
    → HashMap.contains_key k rl.buckets ≡ true
    → IsTracked (put_bucket rl k b)
unfolding put_bucket
put-IsTracked rl k b h there =
    let same = keys-insert_present k b rl.buckets there in
    record {
      queued = h.queued ∙ sym same;
      distinct = IsDistinct-insert k b rl.buckets h.distinct;
      bounded = within rl.cfg.max_keys (len (HashMap.insert k b rl.buckets)) (λ n e. ground (
        arith,
        len-insert k b rl.buckets,
        bound_of rl.cfg.max_keys (len rl.buckets) h.bounded n e,
      ));
    }

inserted-IsTracked :
    (rl : RateLimiter) (k : Key) (b : BucketState)
    → IsTracked rl
    → HashMap.contains_key k rl.buckets ≡ false
    → Ready k rl
    → IsTracked (record rl { fifo = rl.fifo ++ k ∷ []; buckets = HashMap.insert k b rl.buckets })
inserted-IsTracked rl k b h absent ready = record {
  queued = ap (λ ks. ks ++ k ∷ []) h.queued ∙ sym (keys-insert_absent k b rl.buckets absent);
  distinct = IsDistinct-insert k b rl.buckets h.distinct;
  bounded = within rl.cfg.max_keys (len (HashMap.insert k b rl.buckets)) λ n e. elim ready [
    | inl there ↦ cc
    | inr room ↦ ground (arith, len-insert k b rl.buckets, room n e)
  ];
}

deny_to-IsTracked :
    (rl : RateLimiter) (route_key k : Key) (cost : Cost) (now retry_after : Duration)
    (reason : DenyReason)
    → IsTracked rl
    → IsTracked (deny_to rl route_key k cost now retry_after reason).1
unfolding deny_to
deny_to-IsTracked rl route_key k cost now retry_after reason h = record {
  queued = h.queued;
  distinct = h.distinct;
  bounded = h.bounded;
}

report-IsTracked :
    (rl : RateLimiter) (route_key k : Key) (cost : Cost) (now : Duration)
    (res : Result Permit BucketDeny)
    → IsTracked rl
    → IsTracked (report rl route_key k cost now res).1
unfolding report
report-IsTracked rl route_key k cost now (ok p) h = h
report-IsTracked rl route_key k cost now (err d) h = record {
  queued = h.queued;
  distinct = h.distinct;
  bounded = h.bounded;
}

abbrev EntryTracked : Key → BucketState × RateLimiter → Type 0
EntryTracked k r = IsTracked r.1 × (HashMap.contains_key k r.1.buckets ≡ true)

pub entry-EntryTracked :
    (rl : RateLimiter) (k : Key) (now : Duration)
    → IsTracked rl
    → Ready k rl
    → EntryTracked k (bucket_entry rl k now)
unfolding bucket_entry
entry-EntryTracked rl k now h ready = elim (Option-cases (HashMap.lookup k rl.buckets)) [
  | inr (b, e) ↦ rw (e, bucket_entry) (h, contains_of_some k rl.buckets b e)
  | inl e ↦
      rw (e, bucket_entry)
        (
          inserted-IsTracked rl k _ h (contains_of_none k rl.buckets e) ready,
          contains_key-insert_self k _ rl.buckets,
        )
]

reserve-IsTracked :
    (rl : RateLimiter) (route_key k : Key) (eff : AlgorithmConfig) (cost : Cost) (now : Duration)
    → IsTracked rl
    → Ready k rl
    → IsTracked (reserve_in_bucket rl route_key k eff cost now).1
unfolding reserve_in_bucket
reserve-IsTracked rl route_key k eff cost now h ready =
    let r = bucket_entry rl k now in
    let entry = entry-EntryTracked rl k now h ready in
    let out = Bucket.try_reserve r.0 k eff cost now in
    report-IsTracked (put_bucket r.1 k out.1) route_key k cost now out.0
      (put-IsTracked r.1 k out.1 entry.0 entry.1)

admit-IsTracked :
    (room : Room) (route_key k : Key) (eff : AlgorithmConfig) (cost : Cost) (now : Duration)
    → RoomTracked k room
    → IsTracked
        (elim room.0 as (λ _. Result Permit Deny × RateLimiter) [
          | err deny ↦ (err deny, room.1)
          | ok _ ↦ reserve_in_bucket room.1 route_key k eff cost now
        ]).1
admit-IsTracked (err deny, rl) route_key k eff cost now t = t
admit-IsTracked (ok _, rl) route_key k eff cost now t =
    reserve-IsTracked rl route_key k eff cost now t.0 t.1

-- No attempt grows the map beyond the bound.
pub try_acquire-IsTracked :
    (rl : RateLimiter) (route_key : Key) (cost : Cost) (now : Duration)
    → IsTracked rl
    → IsTracked (try_acquire rl route_key cost now).1
unfolding try_acquire
try_acquire-IsTracked rl route_key cost now h =
    let k = resolve_bucket_key rl route_key in
    let eff = effective_algorithm rl now in
    elim (Option-cases (remaining_block rl.global_blocked_until now)) [
      | inr (wait, e) ↦
          rw (e, try_acquire)
            (deny_to-IsTracked rl route_key k cost now wait DenyReason.feedback_backoff h)
      | inl unblocked ↦ elim (Option-cases (slow_start_pre_deny rl cost now eff)) [
        | inr (wait, e) ↦
            rw (unblocked, e, try_acquire)
              (deny_to-IsTracked rl route_key k cost now wait DenyReason.slow_start h)
        | inl allowed ↦
            let room = ensure_bucket_capacity rl route_key k cost now in
            rw (unblocked, allowed, try_acquire)
              (admit-IsTracked room route_key k eff cost now
                (ensure-RoomTracked rl route_key k cost now h))
      ]
    ]
