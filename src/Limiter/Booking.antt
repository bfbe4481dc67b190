-- ===== src/Limiter/Booking.antt =====
-- A limiter of src/limiter.rs with its books, and the steps that its methods share.
use shared_rate_limiter.Base.{
  ◌≡◌, ◌≢◌, refl, sym, subst, Option, none, some, List, [], ◌∷◌, ◌++◌, nat_eq,
}
use shared_rate_limiter.Types.{Key, Duration, Permit}
use shared_rate_limiter.Cost.{Cost}
use shared_rate_limiter.Config.{IsAlgorithm}
use shared_rate_limiter.Observer.{DenyReason}
use shared_rate_limiter.HashMap
use shared_rate_limiter.HashMap.{HashMap}
use shared_rate_limiter.Bucket
use shared_rate_limiter.Bucket.{
  BucketState, AlgoState, BucketDeny, reserve_algo, reserve_window, token_result, remaining_block,
  clear_expired_block,
}
use shared_rate_limiter.Bucket.Ledger.{Booked}
use shared_rate_limiter.Bucket.Update.{new_algo-Booked}
use shared_rate_limiter.Limiter.State.{RateLimiter, deny_to}
use shared_rate_limiter.Limiter.Keys.{ensure_bucket_capacity, bucket_entry, put_bucket}
use shared_rate_limiter.Limiter.Eviction.{ensure-keeps}
use shared_rate_limiter.Limiter.Ledger.{held, AtKey, Accounts, Accounts-insert, Accounts-remove}

-- A limiter whose buckets account for the outstanding permits, under a configuration that the
-- constructors give.
pub record IsBooked (rl : RateLimiter) (ps : List Permit) : Type 0 where
  pub algorithm : IsAlgorithm rl.cfg.algorithm
  pub accounts : Accounts rl.cfg.algorithm rl.buckets ps

-- The same with the configuration and the start unchanged.
pub record Keeps (rl : RateLimiter) (ps : List Permit) (rl' : RateLimiter) : Type 0 where
  pub booked : IsBooked rl' ps
  pub same : rl'.cfg ≡ rl.cfg

pub deny_to-IsBooked :
    (rl : RateLimiter) (ps : List Permit) (route_key bucket_key : Key) (cost : Cost)
    (now retry_after : Duration) (reason : DenyReason)
    → IsBooked rl ps
    → IsBooked (deny_to rl route_key bucket_key cost now retry_after reason).1 ps
unfolding deny_to
deny_to-IsBooked rl ps route_key bucket_key cost now retry_after reason h = record {
  algorithm = h.algorithm;
  accounts = h.accounts;
}

pub ensure-Keeps :
    (rl : RateLimiter) (ps : List Permit) (route_key bucket_key : Key) (cost : Cost)
    (now : Duration)
    → IsBooked rl ps
    → Keeps rl ps (ensure_bucket_capacity rl route_key bucket_key cost now).1
unfolding deny_to
ensure-Keeps rl ps route_key bucket_key cost now h =
    ensure-keeps (Keeps rl ps) rl route_key bucket_key cost now (record { booked = h; same = refl })
      (record { booked = record { algorithm = h.algorithm; accounts = h.accounts }; same = refl })
      λ old rest idx idle taken. record {
        booked = record {
          algorithm = h.algorithm;
          accounts = Accounts-remove old ps h.accounts idle;
        };
        same = refl;
      }

-- The entry of a key: its bucket accounts for the key's permits.
pub record EntryBooked (rl : RateLimiter) (k : Key) (ps : List Permit)
    (r : BucketState × RateLimiter) : Type 0 where
  pub bucket : Booked rl.cfg.algorithm r.0.algo (held k ps)
  pub booked : IsBooked r.1 ps
  pub same : r.1.cfg ≡ rl.cfg

bucket_entry-cases :
    (rl : RateLimiter) (k : Key) (now : Duration) (ps : List Permit) (o : Option BucketState)
    → HashMap.lookup k rl.buckets ≡ o
    → IsBooked rl ps
    → EntryBooked rl k ps (elim o as (λ _. BucketState × RateLimiter) [
      | some b ↦ (b, rl)
      | none ↦
          let b = Bucket.new now rl.cfg.algorithm in
          (b, record rl { fifo = rl.fifo ++ k ∷ []; buckets = HashMap.insert k b rl.buckets })
    ])
unfolding Bucket.new
bucket_entry-cases rl k now ps none e h =
    let algo = rl.cfg.algorithm in
    let empty : held k ps ≡ [] = subst (λ o. AtKey algo o (held k ps)) e (h.accounts.at k) in
    let fresh : Booked algo (Bucket.new_algo now algo) (held k ps) =
      subst (λ qs. Booked algo (Bucket.new_algo now algo) qs) (sym empty)
        (new_algo-Booked algo now) in
    record {
      bucket = fresh;
      booked = record {
        algorithm = h.algorithm;
        accounts = Accounts-insert k (Bucket.new now algo) ps ps h.accounts fresh (λ j apart. refl);
      };
      same = refl;
    }
bucket_entry-cases rl k now ps (some b) e h = record {
  bucket = subst (λ o. AtKey rl.cfg.algorithm o (held k ps)) e (h.accounts.at k);
  booked = h;
  same = refl;
}

pub bucket_entry-EntryBooked :
    (rl : RateLimiter) (k : Key) (now : Duration) (ps : List Permit)
    → IsBooked rl ps
    → EntryBooked rl k ps (bucket_entry rl k now)
unfolding bucket_entry
bucket_entry-EntryBooked rl k now ps h =
    bucket_entry-cases rl k now ps (HashMap.lookup k rl.buckets) refl h

pub put-IsBooked :
    (rl : RateLimiter) (k : Key) (b : BucketState) (ps qs : List Permit)
    → IsBooked rl ps
    → Booked rl.cfg.algorithm b.algo (held k qs)
    → ((j : Key) → k ≢ j → held j qs ≡ held j ps)
    → IsBooked (put_bucket rl k b) qs
unfolding put_bucket
put-IsBooked rl k b ps qs h new others = record {
  algorithm = h.algorithm;
  accounts = Accounts-insert k b ps qs h.accounts new others;
}
