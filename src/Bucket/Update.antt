-- ===== src/Bucket/Update.antt =====
-- What a change of the configuration does to a bucket's accounting (src/bucket.rs, `on_update`).
use shared_rate_limiter.Base.{ℕ, ◌≡◌, refl, ◌⊎◌, inl, inr, List, [], ◌∷◌, arith}
use shared_rate_limiter.Types.{Duration, Permit}
use shared_rate_limiter.Config.{AlgorithmConfig}
use shared_rate_limiter.TokenBucket
use shared_rate_limiter.TokenBucket.{TokenBucketState}
use shared_rate_limiter.Bucket.{BucketState, AlgoState, new, new_algo, update_algo, on_update}
use shared_rate_limiter.Bucket.Ledger.{Booked}

-- The change that permits survive: of the amounts alone.
abbrev pub KeepsShape : AlgorithmConfig → AlgorithmConfig → Type 0
KeepsShape (AlgorithmConfig.fixed_window _ old_w) (AlgorithmConfig.fixed_window _ new_w) =
    old_w ≡ new_w
KeepsShape (AlgorithmConfig.token_bucket _ _) (AlgorithmConfig.token_bucket _ _) = Unit
KeepsShape _ _ = ⊥

-- A bucket starts with nothing outstanding.
pub new_algo-Booked : (algo : AlgorithmConfig) (now : Duration) → Booked algo (new_algo now algo) []
unfolding new_algo
new_algo-Booked (AlgorithmConfig.fixed_window max window) now = (refl, omega arith, tt)
new_algo-Booked (AlgorithmConfig.token_bucket capacity rate) now = (refl, omega arith, tt)

update_tokens-in_flight :
    (s : TokenBucketState) (old_cap old_refill new_cap : ℕ) (now : Duration)
    → let s' = TokenBucket.refill s old_cap old_refill now in
      (TokenBucket.apply_capacity_change s' old_cap new_cap).in_flight ≡ s.in_flight
unfolding TokenBucket.apply_capacity_change TokenBucket.refill
update_tokens-in_flight s old_cap old_refill new_cap now = ground arith

update_algo-Booked :
    (old new : AlgorithmConfig) (state : AlgoState) (now : Duration) (ps : List Permit)
    → Booked old state ps
    → (ps ≡ []) ⊎ KeepsShape old new
    → Booked new (update_algo state old new now) ps
unfolding update_algo
update_algo-Booked (AlgorithmConfig.fixed_window m old_w) (AlgorithmConfig.fixed_window m' new_w)
      (AlgoState.fixed_window s) now [] h change =
    ground (arith, h)
update_algo-Booked (AlgorithmConfig.fixed_window m old_w) (AlgorithmConfig.fixed_window m' new_w)
      (AlgoState.fixed_window s) now (p ∷ ps) h (inl e) =
    cc
update_algo-Booked (AlgorithmConfig.fixed_window m old_w) (AlgorithmConfig.fixed_window m' new_w)
      (AlgoState.fixed_window s) now (p ∷ ps) h (inr e) =
    ground (arith, h)
update_algo-Booked (AlgorithmConfig.token_bucket c r) (AlgorithmConfig.token_bucket c' r')
      (AlgoState.token_bucket s) now ps h change =
    (rw (update_tokens-in_flight s c r c' now) h.0, h.1, h.2)
update_algo-Booked (AlgorithmConfig.fixed_window m w) (AlgorithmConfig.token_bucket c r)
      (AlgoState.fixed_window s) now [] h change =
    new_algo-Booked (AlgorithmConfig.token_bucket c r) now
update_algo-Booked (AlgorithmConfig.token_bucket c r) (AlgorithmConfig.fixed_window m w)
      (AlgoState.token_bucket s) now [] h change =
    new_algo-Booked (AlgorithmConfig.fixed_window m w) now
update_algo-Booked (AlgorithmConfig.fixed_window m w) (AlgorithmConfig.token_bucket c r) state now
      (p ∷ ps) h (inl e) =
    cc
update_algo-Booked (AlgorithmConfig.fixed_window m w) (AlgorithmConfig.token_bucket c r) state now
      (p ∷ ps) h (inr apart) =
    elim apart [ ]
update_algo-Booked (AlgorithmConfig.token_bucket c r) (AlgorithmConfig.fixed_window m w) state now
      (p ∷ ps) h (inl e) =
    cc
update_algo-Booked (AlgorithmConfig.token_bucket c r) (AlgorithmConfig.fixed_window m w) state now
      (p ∷ ps) h (inr apart) =
    elim apart [ ]
update_algo-Booked _ _ _ now ps h change = elim h [ ]

-- The accounting survives a change if no permit is outstanding, or only the amounts change.
pub on_update-Booked :
    (old new : AlgorithmConfig) (b : BucketState) (now : Duration) (ps : List Permit)
    → Booked old b.algo ps
    → (ps ≡ []) ⊎ KeepsShape old new
    → Booked new (on_update b old new now).algo ps
unfolding on_update
on_update-Booked old new b now ps h change = update_algo-Booked old new b.algo now ps h change
