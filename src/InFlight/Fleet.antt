-- ===== src/InFlight/Fleet.antt =====
-- The carriers of src/in_flight.rs around one limiter: the calls that an application makes when every
-- permit that it gets goes into a `LimiterInFlight`. A carrier that is completed, and not finalized or
-- expired, leaves its permit with nobody: the limiter never hears of it.
use shared_rate_limiter.Base.{◌+◌, ◌≤◌, ◌≡◌, Result, ok, err, List, [], ◌∷◌, ◌++◌, nat_eq}
use shared_rate_limiter.Word.{u64_max}
use shared_rate_limiter.Types.{Key, Duration, Permit, Deny, Outcome}
use shared_rate_limiter.Cost.{Cost, get, IsCost}
use shared_rate_limiter.Config.{Config, IsAlgorithm}
use shared_rate_limiter.Feedback.{RateLimitFeedback}
use shared_rate_limiter.Bucket.Ledger.{total}
use shared_rate_limiter.Limiter.State.{RateLimiter, new_at}
use shared_rate_limiter.Limiter.Acquire.{try_acquire}
use shared_rate_limiter.Limiter.Feedback.{apply_feedback}
use shared_rate_limiter.Limiter.Update.{update_config}
use shared_rate_limiter.InFlight.Waiters
use shared_rate_limiter.InFlight.Carrier
use shared_rate_limiter.InFlight.Carrier.{LimiterInFlight, LimiterInFlightExpiryPolicy}

-- A carrier, or what a completed one leaves behind.
pub data Slot {ℓ} (W : Type ℓ) : Type ℓ where
  carried : LimiterInFlight W → Slot W
  dropped : Permit → Slot W

-- The limiter with the carriers, and the waiters that the carriers have taken and handed out so far.
pub record Fleet {ℓ} (W : Type ℓ) : Type ℓ where
  pub limiter : RateLimiter
  pub slots : List (Slot W)
  pub taken : List W
  pub answered : List W

module _ {ℓ} {W : Type ℓ} where
  abbrev pub permit_of : Slot W → Permit
  permit_of (carried e) = e.permit
  permit_of (dropped p) = p

  abbrev pub permits : List (Slot W) → List Permit
  permits [] = []
  permits (x ∷ xs) = permit_of x ∷ permits xs

  abbrev pub waiting_of : Slot W → List W
  waiting_of (carried e) = Waiters.into_vec e.waiters
  waiting_of (dropped p) = []

  -- Who waits for a carrier.
  abbrev pub waiting : List (Slot W) → List W
  waiting [] = []
  waiting (x ∷ xs) = waiting_of x ++ waiting xs

  abbrev pub start : Config → Duration → Fleet W
  start cfg started_at = record {
    limiter = new_at cfg started_at;
    slots = [];
    taken = [];
    answered = [];
  }

  -- A permit goes into a new carrier, with its first waiter.
  abbrev pub sent : Fleet W → Duration → W → Result Permit Deny × RateLimiter → Fleet W
  sent f deadline w (ok p, rl) = record f {
    limiter = rl;
    slots = carried (Carrier.new p deadline w) ∷ f.slots;
    taken = w ∷ f.taken;
  }
  sent f deadline w (err deny, rl) = record f { limiter = rl }

  -- A carrier is used up.
  abbrev pub settled : Fleet W → List (Slot W) → List (Slot W) → List W × RateLimiter → Fleet W
  settled f before after (ws, rl) = record f {
    limiter = rl;
    slots = before ++ after;
    answered = f.answered ++ ws;
  }

-- One call. The costs that are out at once stay within a `u64`.
pub data Call {ℓ} {W : Type ℓ} (f g : Fleet W) : Type ℓ where
  sends :
      (route_key : Key) (cost : Cost) (now deadline : Duration) (w : W)
      → IsCost cost
      → total (permits f.slots) + get cost ≤ u64_max
      → g ≡ sent f deadline w (try_acquire f.limiter route_key cost now)
      → Call f g
  joins :
      (before : List (Slot W)) (e : LimiterInFlight W) (after : List (Slot W)) (w : W)
      → f.slots ≡ before ++ carried e ∷ after
      → g ≡ record f { slots = before ++ carried (Carrier.join e w) ∷ after; taken = w ∷ f.taken }
      → Call f g
  completes :
      (before : List (Slot W)) (e : LimiterInFlight W) (after : List (Slot W))
      → f.slots ≡ before ++ carried e ∷ after
      → g ≡ record f {
        slots = before ++ dropped e.permit ∷ after;
        answered = f.answered ++ Carrier.complete e;
      }
      → Call f g
  finalizes :
      (before : List (Slot W)) (e : LimiterInFlight W) (after : List (Slot W)) (outcome : Outcome)
      (now : Duration)
      → f.slots ≡ before ++ carried e ∷ after
      → g ≡ settled f before after (Carrier.finalize e f.limiter outcome now)
      → Call f g
  expires :
      (before : List (Slot W)) (e : LimiterInFlight W) (after : List (Slot W))
      (policy : LimiterInFlightExpiryPolicy) (now : Duration)
      → f.slots ≡ before ++ carried e ∷ after
      → g ≡ settled f before after (Carrier.expire e f.limiter policy now)
      → Call f g
  feeds :
      (route_key : Key) (feedback : RateLimitFeedback) (now : Duration)
      → g ≡ record f { limiter = apply_feedback f.limiter route_key feedback now }
      → Call f g
  updates :
      (cfg : Config) (now : Duration)
      → IsAlgorithm cfg.algorithm
      → g ≡ record f { limiter = (update_config f.limiter cfg now).1 }
      → Call f g

pub data Run {ℓ} {W : Type ℓ} (f : Fleet W) : Fleet W → Type ℓ where
  here : Run f f
  next : {g h : Fleet W} → Run f g → Call g h → Run f h
