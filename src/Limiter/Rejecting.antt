-- ===== src/Limiter/Rejecting.antt =====
-- When `update_config` of src/limiter.rs takes a new configuration, and when it does not.
use shared_rate_limiter.Base.{
  nat_eq, ◌≡◌, ◌≢◌, refl, subst, ap, ◌⊎◌, inl, inr, true, false, Bool-cases, Option-cases, some,
  Result, ok, err, List, [], ◌∷◌, arith,
}
use shared_rate_limiter.Types.{Key, Duration, Permit}
use shared_rate_limiter.Config.{Config, AlgorithmConfig, IsAlgorithm}
use shared_rate_limiter.HashMap
use shared_rate_limiter.HashMap.{keys}
use shared_rate_limiter.HashMap.Laws.{any_value-found, keys-map_values}
use shared_rate_limiter.Bucket
use shared_rate_limiter.Bucket.{AlgoState, BucketState}
use shared_rate_limiter.Bucket.Ledger.{Booked}
use shared_rate_limiter.Bucket.Update.{KeepsShape}
use shared_rate_limiter.Limiter.State.{
  RateLimiter, UpdateConfigError, UpdateConfigErrorKind, algorithm_changed,
  fixed_window_window_changed,
}
use shared_rate_limiter.Limiter.Update.{
  requires_no_outstanding, any_outstanding, update_config_unchecked, update_config,
}
use shared_rate_limiter.Limiter.Ledger.{held, AtKey, held-idle}
use shared_rate_limiter.Limiter.Amending.{requires-KeepsShape}
use shared_rate_limiter.Limiter.Booking.{IsBooked}
use shared_rate_limiter.Limiter.History.{World, start, Reach, Reach-IsSound}

-- The configuration is taken: it is in force, and every key keeps its bucket.
pub record Accepts (rl : RateLimiter) (cfg : Config)
    (r : Result (Unit {0}) UpdateConfigError × RateLimiter) : Type 0 where
  pub answer : r.0 ≡ ok tt
  pub in_force : r.1.cfg ≡ cfg
  pub same_keys : keys r.1.buckets ≡ keys rl.buckets

-- What a change that is not of the amounts alone changes.
abbrev pub change_of : AlgorithmConfig → AlgorithmConfig → UpdateConfigErrorKind
change_of (AlgorithmConfig.fixed_window _ _) (AlgorithmConfig.fixed_window _ _) =
    fixed_window_window_changed
change_of _ _ = algorithm_changed

-- The configuration is not taken: an error that says what would change, and nothing else.
pub record Rejects (rl : RateLimiter) (cfg : Config)
    (r : Result (Unit {0}) UpdateConfigError × RateLimiter) : Type 0 where
  pub answer : r.0 ≡ err (record { kind = change_of rl.cfg.algorithm cfg.algorithm })
  pub unchanged : r.1 ≡ rl

-- A bucket with something outstanding has a permit that is out.
Booked-busy :
    (algo : AlgorithmConfig) (state : AlgoState)
    → Booked algo state []
    → Bucket.algo_outstanding state ≡ false
unfolding Bucket.algo_outstanding
Booked-busy (AlgorithmConfig.fixed_window max window) (AlgoState.fixed_window s) h =
    ground (arith, h)
Booked-busy (AlgorithmConfig.token_bucket c r) (AlgoState.token_bucket s) h = ground (arith, h)
Booked-busy (AlgorithmConfig.fixed_window max window) (AlgoState.token_bucket s) h = absurd h
Booked-busy (AlgorithmConfig.token_bucket c r) (AlgoState.fixed_window s) h = absurd h

busy-out :
    (rl : RateLimiter) (ps : List Permit) → IsBooked rl ps → any_outstanding rl ≡ true → ps ≢ []
unfolding any_outstanding Bucket.has_outstanding
busy-out rl ps h busy nil =
    let (k, b, found, out) =
      any_value-found Bucket.has_outstanding rl.buckets h.accounts.distinct busy in
    let none_held : AtKey rl.cfg.algorithm (some b) [] =
      subst (λ o. AtKey rl.cfg.algorithm o []) found
        (subst (λ qs. AtKey rl.cfg.algorithm (HashMap.lookup k rl.buckets) (held k qs)) nil
          (h.accounts.at k)) in
    cc (Booked-busy rl.cfg.algorithm b.algo none_held, out)

nothing_held : (ps : List Permit) → ((k : Key) → held k ps ≡ []) → ps ≡ []
nothing_held [] h = refl
nothing_held (p ∷ ps) h = absurd (ground (arith, h p.key))

idle-none :
    (rl : RateLimiter) (ps : List Permit) → IsBooked rl ps → any_outstanding rl ≡ false → ps ≡ []
unfolding any_outstanding
idle-none rl ps h idle = nothing_held ps (held-idle rl.cfg.algorithm rl.buckets ps h.accounts idle)

requires-change :
    (old new : AlgorithmConfig) {kind : UpdateConfigErrorKind}
    → requires_no_outstanding old new ≡ some kind
    → (kind ≡ change_of old new) × (¬ KeepsShape old new)
unfolding requires_no_outstanding
requires-change (AlgorithmConfig.fixed_window m w) (AlgorithmConfig.fixed_window m' w') e =
    ground (arith, e)
requires-change (AlgorithmConfig.token_bucket c r) (AlgorithmConfig.token_bucket c' r') e =
    absurd (cc e)
requires-change (AlgorithmConfig.fixed_window m w) (AlgorithmConfig.token_bucket c r) e =
    ground (arith, e)
requires-change (AlgorithmConfig.token_bucket c r) (AlgorithmConfig.fixed_window m w) e =
    ground (arith, e)

module _ (rl : RateLimiter) (cfg : Config) (now : Duration) (ps : List Permit)
    (h : IsBooked rl ps) where
  taken : Accepts rl cfg (ok tt, update_config_unchecked rl cfg now)
  unfolding update_config_unchecked
  taken = record {
    answer = refl;
    in_force = refl;
    same_keys =
        keys-map_values (λ b. Bucket.on_update b rl.cfg.algorithm cfg.algorithm now) rl.buckets;
  }

  update_config-cases :
      (((ps ≡ []) ⊎ KeepsShape rl.cfg.algorithm cfg.algorithm)
        × Accepts rl cfg (update_config rl cfg now))
      ⊎ ((ps ≢ [])
          × (¬ KeepsShape rl.cfg.algorithm cfg.algorithm)
          × Rejects rl cfg (update_config rl cfg now))
  unfolding update_config
  update_config-cases =
      elim (Option-cases (requires_no_outstanding rl.cfg.algorithm cfg.algorithm)) [
        | inl e ↦ inl (
          inr (requires-KeepsShape rl.cfg.algorithm cfg.algorithm e),
          rw (e, update_config) taken,
        )
        | inr (kind, e) ↦ elim (Bool-cases (any_outstanding rl)) [
          | inl busy ↦
              let (is, changes) = requires-change rl.cfg.algorithm cfg.algorithm e in
              inr (
                busy-out rl ps h busy,
                changes,
                rw (e, busy, update_config)
                    (record {
                      answer = ap (λ kind. err (record { kind = kind })) is;
                      unchanged = refl;
                    }),
              )
          | inr idle ↦ inl (inl (idle-none rl ps h idle), rw (e, idle, update_config) taken)
        ]
      ]

-- After any calls on a new limiter of a valid algorithm, each permit finalized at most once and the
-- costs that are out within a `u64`: `update_config` takes the new configuration, which is then in
-- force with a bucket for the same keys, if no permit is out or the kind of the algorithm and the
-- length of a window stay; and otherwise it is an error that names the change and the limiter stays as it was.
pub update_config-Answers :
    (old : Config) (started_at : Duration) {w : World} (cfg : Config) (now : Duration)
    → IsAlgorithm old.algorithm
    → Reach (start old started_at) w
    → (((w.outstanding ≡ []) ⊎ KeepsShape w.limiter.cfg.algorithm cfg.algorithm)
        × Accepts w.limiter cfg (update_config w.limiter cfg now))
      ⊎ ((w.outstanding ≢ [])
          × (¬ KeepsShape w.limiter.cfg.algorithm cfg.algorithm)
          × Rejects w.limiter cfg (update_config w.limiter cfg now))
update_config-Answers old started_at {w} cfg now valid r =
    update_config-cases w.limiter cfg now w.outstanding (Reach-IsSound old started_at valid r)
