-- ===== src/Limiter/Amending.antt =====
-- What `apply_feedback` and `update_config` of src/limiter.rs do to the accounts of the buckets.
use shared_rate_limiter.Base.{
  ◌≡◌, refl, ◌⊎◌, inl, inr, if◌then◌else◌, Option, none, some, Result, ok, err, List, [], arith,
  nat_eq, Bool-cases,
}
use shared_rate_limiter.Word.{add_duration}
use shared_rate_limiter.Types.{Key, Duration, Permit, Deny}
use shared_rate_limiter.Cost
use shared_rate_limiter.Cost.{Cost}
use shared_rate_limiter.Config.{AlgorithmConfig, IsAlgorithm, Config}
use shared_rate_limiter.Feedback.{RateLimitFeedback, FeedbackScope}
use shared_rate_limiter.Bucket
use shared_rate_limiter.Bucket.{BucketState}
use shared_rate_limiter.Bucket.Update.{KeepsShape}
use shared_rate_limiter.Limiter.State.{
  RateLimiter, UpdateConfigErrorKind, UpdateConfigError, resolve_bucket_key,
}
use shared_rate_limiter.Limiter.Keys.{ensure_bucket_capacity, bucket_entry, put_bucket}
use shared_rate_limiter.Limiter.Feedback.{
  remap_route, backoff_of, block_bucket, apply_scope, apply_feedback,
}
use shared_rate_limiter.Limiter.Update.{
  requires_no_outstanding, any_outstanding, update_config_unchecked, update_config,
}
use shared_rate_limiter.Limiter.Ledger.{held, Accounts-update, held-idle}
use shared_rate_limiter.Limiter.Remap.{remap-cases}
use shared_rate_limiter.Limiter.Booking.{
  IsBooked, ensure-Keeps, EntryBooked, bucket_entry-EntryBooked, put-IsBooked,
}

remap_route-IsBooked :
    (rl : RateLimiter) (route_key : Key) (remap : Option Key) (ps : List Permit)
    → IsBooked rl ps
    → IsBooked (remap_route rl route_key remap).1 ps
remap_route-IsBooked rl route_key remap ps h =
    remap-cases (λ r. IsBooked r ps) rl route_key remap h
      λ routes. record { algorithm = h.algorithm; accounts = h.accounts }

block_bucket-IsBooked :
    (rl : RateLimiter) (route_key bucket_key : Key) (now until : Duration) (ps : List Permit)
    → IsBooked rl ps
    → IsBooked (block_bucket rl route_key bucket_key now until) ps
unfolding block_bucket
block_bucket-IsBooked rl route_key k now until ps h = go room.0
  where
    room : Result (Unit {0}) Deny × RateLimiter
    room = ensure_bucket_capacity rl route_key k Cost.one now

    kept : IsBooked room.1 ps
    kept = (ensure-Keeps rl ps route_key k Cost.one now h).booked

    entry : BucketState × RateLimiter
    entry = bucket_entry room.1 k now

    found : EntryBooked room.1 k ps entry
    found = bucket_entry-EntryBooked room.1 k now ps kept

    go :
        (r : Result (Unit {0}) Deny)
        → IsBooked
            (elim r as (λ _. RateLimiter) [
              | err _ ↦ room.1
              | ok _ ↦ put_bucket entry.1 k (Bucket.apply_blocked_until entry.0 until)
            ])
            ps
    go (err deny) = kept
    go (ok _) =
        put-IsBooked entry.1 k _ ps ps found.booked (rw found.same found.bucket) (λ j apart. refl)

apply_scope-IsBooked :
    (rl : RateLimiter) (scope : FeedbackScope) (route_key bucket_key : Key) (now until : Duration)
    (ps : List Permit)
    → IsBooked rl ps
    → IsBooked (apply_scope rl scope route_key bucket_key now until) ps
unfolding apply_scope
apply_scope-IsBooked rl FeedbackScope.global route_key k now until ps h = record {
  algorithm = h.algorithm;
  accounts = h.accounts;
}
apply_scope-IsBooked rl FeedbackScope.key route_key k now until ps h =
    block_bucket-IsBooked rl route_key k now until ps h
apply_scope-IsBooked rl FeedbackScope.route route_key k now until ps h =
    block_bucket-IsBooked rl route_key k now until ps h

pub apply_feedback-IsBooked :
    (rl : RateLimiter) (route_key : Key) (feedback : RateLimitFeedback) (now : Duration)
    (ps : List Permit)
    → IsBooked rl ps
    → IsBooked (apply_feedback rl route_key feedback now) ps
unfolding apply_feedback
apply_feedback-IsBooked rl route_key feedback now ps h =
    let rl' = (remap_route rl route_key feedback.bucket_remap).1 in
    let applied =
      apply_scope-IsBooked rl' feedback.scope route_key (resolve_bucket_key rl' route_key) now
        (add_duration now (backoff_of feedback)) ps
        (remap_route-IsBooked rl route_key feedback.bucket_remap ps h) in
    record { algorithm = applied.algorithm; accounts = applied.accounts }

-- A change that the check lets through without a look at the buckets is of the amounts alone.
pub requires-KeepsShape :
    (old new : AlgorithmConfig) → requires_no_outstanding old new ≡ none → KeepsShape old new
unfolding requires_no_outstanding
requires-KeepsShape (AlgorithmConfig.fixed_window m w) (AlgorithmConfig.fixed_window m' w') e =
    ground arith
requires-KeepsShape (AlgorithmConfig.token_bucket c r) (AlgorithmConfig.token_bucket c' r') e = tt
requires-KeepsShape (AlgorithmConfig.fixed_window m w) (AlgorithmConfig.token_bucket c r) e = cc
requires-KeepsShape (AlgorithmConfig.token_bucket c r) (AlgorithmConfig.fixed_window m w) e = cc

pub update_config-IsBooked :
    (rl : RateLimiter) (cfg : Config) (now : Duration) (ps : List Permit)
    → IsAlgorithm cfg.algorithm
    → IsBooked rl ps
    → IsBooked (update_config rl cfg now).1 ps
unfolding update_config any_outstanding
update_config-IsBooked rl cfg now ps valid h =
    go (requires_no_outstanding rl.cfg.algorithm cfg.algorithm) refl
  where
    updated :
        ((k : Key) → (held k ps ≡ []) ⊎ KeepsShape rl.cfg.algorithm cfg.algorithm)
        → IsBooked (update_config_unchecked rl cfg now) ps
    updated change = record {
      algorithm = valid;
      accounts = Accounts-update rl.cfg.algorithm cfg.algorithm rl.buckets now ps h.accounts change;
    }

    go :
        (o : Option UpdateConfigErrorKind)
        → requires_no_outstanding rl.cfg.algorithm cfg.algorithm ≡ o
        → IsBooked
            (elim o as (λ _. Result (Unit {0}) UpdateConfigError × RateLimiter) [
              | some kind ↦
                  if any_outstanding rl
                  then (err (record { kind = kind }), rl)
                  else (ok tt, update_config_unchecked rl cfg now)
              | none ↦ (ok tt, update_config_unchecked rl cfg now)
            ]).1
            ps
    go none e = updated (λ k. inr (requires-KeepsShape rl.cfg.algorithm cfg.algorithm e))
    go (some kind) e = elim (Bool-cases (any_outstanding rl)) [
      | inl busy ↦ rw busy h
      | inr idle ↦
          rw idle (updated (λ k. inl (held-idle rl.cfg.algorithm rl.buckets ps h.accounts idle k)))
    ]
