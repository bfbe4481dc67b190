-- ===== src/Limiter/State.antt =====
-- src/limiter.rs: the limiter's state, its errors, and the call of the observer on a denial.
use Prim.Native.String.{String}
use shared_rate_limiter.Base.{nat_eq, ℕ, Option, none, some, List, [], ◌∷◌}
use shared_rate_limiter.Types.{Key, Duration, Deny}
use shared_rate_limiter.Cost.{Cost}
use shared_rate_limiter.Config.{Config}
use shared_rate_limiter.Observer.{Observer, DenyReason, on_deny}
use shared_rate_limiter.HashMap
use shared_rate_limiter.HashMap.{HashMap}
use shared_rate_limiter.Bucket.{BucketState}

pub data UpdateConfigErrorKind : Type 0 where
  algorithm_changed fixed_window_window_changed : UpdateConfigErrorKind

pub record UpdateConfigError : Type 0 where
  pub kind : UpdateConfigErrorKind

-- `fmt`.
unfoldable display : UpdateConfigError → String
display error = elim error.kind [
  | algorithm_changed ↦
      "update_config rejected: algorithm kind changed while permits were outstanding"
  | fixed_window_window_changed ↦
      "update_config rejected: fixed-window window changed while permits were outstanding"
]

pub record RateLimiter : Type 0 where
  pub cfg : Config
  pub started_at : Duration
  pub route_map : HashMap Key Key
  pub buckets : HashMap Key BucketState
  pub fifo : List Key
  pub global_blocked_until : Option Duration
  pub observer : Observer

unfoldable pub new_at : Config → Duration → RateLimiter
new_at cfg started_at = record {
  cfg = cfg;
  started_at = started_at;
  route_map = [];
  buckets = [];
  fifo = [];
  global_blocked_until = none;
  observer = [];
}

unfoldable pub new : Config → RateLimiter
unfolding new_at
new cfg = new_at cfg 0

unfoldable pub set_observer : RateLimiter → Observer → RateLimiter
set_observer rl observer = record rl { observer = observer }

unfoldable pub tracked_keys : RateLimiter → ℕ
tracked_keys rl = HashMap.len rl.buckets

unfoldable pub resolve_bucket_key : RateLimiter → Key → Key
unfolding HashMap.lookup
resolve_bucket_key rl route_key = elim (HashMap.lookup route_key rl.route_map) [
  | none ↦ route_key
  | some k ↦ k
]

-- `self.observer.on_deny(..)`, and the denial that is returned.
unfoldable pub deny_to :
    RateLimiter → Key → Key → Cost → Duration → Duration → DenyReason → Deny × RateLimiter
deny_to rl route_key bucket_key cost now retry_after reason =
    let deny : Deny = record { retry_after = retry_after } in
    (
      deny,
      record rl {
        observer =
            on_deny (record {
              route_key = route_key;
              bucket_key = bucket_key;
              cost = cost;
              now = now;
              deny = deny;
              reason = reason;
            })
            ∷ rl.observer;
      },
    )
