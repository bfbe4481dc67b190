-- ===== src/Limiter/History.antt =====
-- A limiter of src/limiter.rs with the permits that are out: the calls that a caller can make, each
-- permit finalized once at most, and what holds after any number of them. Time is what each caller
-- says. `update_config_unchecked` is not among the calls.
use shared_rate_limiter.Base.{◌+◌, ◌≤◌, ◌≡◌, refl, sym, subst, List, [], ◌∷◌, ◌++◌, nat_eq}
use shared_rate_limiter.Word.{u64_max}
use shared_rate_limiter.Types.{Key, Duration, Permit, Outcome}
use shared_rate_limiter.Cost.{Cost, get, IsCost}
use shared_rate_limiter.Config.{Config, IsAlgorithm}
use shared_rate_limiter.Feedback.{RateLimitFeedback}
use shared_rate_limiter.HashMap
use shared_rate_limiter.Bucket.Ledger.{total, add_permit}
use shared_rate_limiter.Limiter.State.{RateLimiter, new_at}
use shared_rate_limiter.Limiter.Acquire.{try_acquire}
use shared_rate_limiter.Limiter.Feedback.{apply_feedback}
use shared_rate_limiter.Limiter.Finalize.{commit, refund}
use shared_rate_limiter.Limiter.Update.{update_config}
use shared_rate_limiter.Limiter.Booking.{IsBooked}
use shared_rate_limiter.Limiter.Attempt.{try_acquire-IsBooked}
use shared_rate_limiter.Limiter.Settling.{commit-IsBooked, refund-IsBooked}
use shared_rate_limiter.Limiter.Amending.{apply_feedback-IsBooked, update_config-IsBooked}

pub record World : Type 0 where
  pub limiter : RateLimiter
  pub outstanding : List Permit

abbrev pub start : Config → Duration → World
start cfg started_at = record { limiter = new_at cfg started_at; outstanding = [] }

-- One call. The costs that are out at once stay within a `u64`.
pub data Step (w v : World) : Type 0 where
  acquires :
      (route_key : Key) (cost : Cost) (now : Duration)
      → IsCost cost
      → total w.outstanding + get cost ≤ u64_max
      → v ≡ record {
        limiter = (try_acquire w.limiter route_key cost now).1;
        outstanding = add_permit (try_acquire w.limiter route_key cost now).0 w.outstanding;
      }
      → Step w v
  commits :
      (before : List Permit) (p : Permit) (after : List Permit) (outcome : Outcome) (now : Duration)
      → w.outstanding ≡ before ++ p ∷ after
      → v ≡ record { limiter = commit w.limiter p outcome now; outstanding = before ++ after }
      → Step w v
  refunds :
      (before : List Permit) (p : Permit) (after : List Permit) (now : Duration)
      → w.outstanding ≡ before ++ p ∷ after
      → v ≡ record { limiter = refund w.limiter p now; outstanding = before ++ after }
      → Step w v
  feeds :
      (route_key : Key) (feedback : RateLimitFeedback) (now : Duration)
      → v ≡ record w { limiter = apply_feedback w.limiter route_key feedback now }
      → Step w v
  updates :
      (cfg : Config) (now : Duration)
      → IsAlgorithm cfg.algorithm
      → v ≡ record w { limiter = (update_config w.limiter cfg now).1 }
      → Step w v

pub data Reach (w : World) : World → Type 0 where
  here : Reach w w
  next : {v u : World} → Reach w v → Step v u → Reach w u

abbrev pub IsSound : World → Type 0
IsSound w = IsBooked w.limiter w.outstanding

start-IsSound :
    (cfg : Config) (started_at : Duration)
    → IsAlgorithm cfg.algorithm
    → IsSound (start cfg started_at)
unfolding new_at HashMap.lookup
start-IsSound cfg started_at valid = record {
  algorithm = valid;
  accounts = record { distinct = tt; at = λ k. refl };
}

Step-IsSound : {w v : World} → Step w v → IsSound w → IsSound v
Step-IsSound {w} (acquires route_key cost now valid fits e) h =
    subst IsSound (sym e)
      (try_acquire-IsBooked w.limiter route_key cost now w.outstanding valid fits h)
Step-IsSound {w} (commits before p after outcome now out e) h =
    subst IsSound (sym e)
      (commit-IsBooked w.limiter outcome now before p after (subst (IsBooked w.limiter) out h))
Step-IsSound {w} (refunds before p after now out e) h =
    subst IsSound (sym e)
      (refund-IsBooked w.limiter now before p after (subst (IsBooked w.limiter) out h))
Step-IsSound {w} (feeds route_key feedback now e) h =
    subst IsSound (sym e) (apply_feedback-IsBooked w.limiter route_key feedback now w.outstanding h)
Step-IsSound {w} (updates cfg now valid e) h =
    subst IsSound (sym e) (update_config-IsBooked w.limiter cfg now w.outstanding valid h)

-- After any calls on a new limiter of a valid algorithm, with any times and outcomes, each permit
-- finalized at most once and the costs that are out within a `u64`, every bucket accounts for exactly
-- the permits of its key that are out: `reserved` or `in_flight` is the sum of their costs, each
-- permit of a window belongs to the bucket's present window, and a permit's bucket is there.
pub Reach-IsSound :
    (cfg : Config) (started_at : Duration) {w : World}
    → IsAlgorithm cfg.algorithm
    → Reach (start cfg started_at) w
    → IsSound w
Reach-IsSound cfg started_at valid here = start-IsSound cfg started_at valid
Reach-IsSound cfg started_at valid (next r s) =
    Step-IsSound s (Reach-IsSound cfg started_at valid r)
