-- ===== src/Limiter/Log.antt =====
-- The permits that were used under a fixed window of src/limiter.rs, as a log beside the limiter, and what a
-- commit and an update do to the two.
use std.Path.{fun_ext}
use native.Mathlib.Decide.{ℕ_discrete}
use shared_rate_limiter.Base.{
  ℕ, ◌+◌, ◌≤◌, ◌<◌, ◌≡◌, ◌≢◌, refl, sym, ap, ◌∙◌, subst, if◌then◌else◌, ◌==◌, Option, none, some,
  List, ◌∷◌, ◌++◌, arith, nat_eq,
}
use shared_rate_limiter.Word.{duration_max}
use shared_rate_limiter.Types.{Key, Duration, Permit, PermitMeta, Outcome, not_sent}
use shared_rate_limiter.Cost.{Cost, get}
use shared_rate_limiter.Config.{Config, AlgorithmConfig, SlowStart, IsAlgorithm}
use shared_rate_limiter.HashMap
use shared_rate_limiter.FixedWindow.{FixedWindowState}
use shared_rate_limiter.Bucket
use shared_rate_limiter.Bucket.{BucketState, AlgoState}
use shared_rate_limiter.Bucket.Quota.{Quota, Covered}
use shared_rate_limiter.Bucket.Usage.{
  charge, charged, HasLength, Uses, UsesState, on_update-Uses, fresh-Uses,
}
use shared_rate_limiter.Limiter.State.{RateLimiter}
use shared_rate_limiter.Limiter.Ramp.{scaled, effective_algorithm}
use shared_rate_limiter.Limiter.Booking.{IsBooked}
use shared_rate_limiter.Limiter.Update.{update_config_unchecked}
use shared_rate_limiter.Limiter.Finalize.{commit}
use shared_rate_limiter.Limiter.Settings.{commit_cfg}
use shared_rate_limiter.Limiter.Spending.{out-Covered}
use shared_rate_limiter.Limiter.Counting.{committed, booked_counts}
use shared_rate_limiter.Limiter.Frame.{commit-P, updated-P}

-- A request that was not sent has not used its permit.
abbrev pub log : Outcome → Permit → List Permit → List Permit
log not_sent p ps = ps
log _ p ps = p ∷ ps

-- The bucket of a key tells what was used in its present window; without one, nothing was.
abbrev pub Tells : Duration → (Duration → ℕ) → Option BucketState → Type 0
Tells window used_in none = (t : Duration) → used_in t ≡ 0
Tells window used_in (some b) = UsesState window used_in b.algo

abbrev pub logged : Key → List Permit → Duration → ℕ
logged k us t = charged k t us

pub algorithm_of :
    (algo : AlgorithmConfig) (window : Duration)
    → HasLength window algo
    → (max : ℕ) × (algo ≡ AlgorithmConfig.fixed_window max window)
algorithm_of (AlgorithmConfig.fixed_window max w) window len =
    (max, ap (λ v. AlgorithmConfig.fixed_window max v) len)
algorithm_of (AlgorithmConfig.token_bucket c r) window len = absurd len

pub positive :
    (algo : AlgorithmConfig) (window : Duration)
    → IsAlgorithm algo
    → HasLength window algo
    → 0 < window
positive (AlgorithmConfig.fixed_window max w) window valid len = ground (arith, valid, len)
positive (AlgorithmConfig.token_bucket c r) window valid len = absurd len

scaled-HasLength :
    (slow : Option SlowStart) (algo : AlgorithmConfig) (started_at now window : Duration)
    → HasLength window algo
    → HasLength window (scaled slow algo started_at now)
unfolding scaled
scaled-HasLength none algo started_at now window len = len
scaled-HasLength (some slow) (AlgorithmConfig.fixed_window max w) started_at now window len = len
scaled-HasLength (some slow) (AlgorithmConfig.token_bucket c r) started_at now window len =
    absurd len

pub effective-HasLength :
    (rl : RateLimiter) (now window : Duration)
    → HasLength window rl.cfg.algorithm
    → HasLength window (effective_algorithm rl now)
unfolding effective_algorithm
effective-HasLength rl now window len =
    scaled-HasLength rl.cfg.slow_start rl.cfg.algorithm rl.started_at now window len

log_ne :
    (outcome : Outcome) (p : Permit) (us : List Permit) (k : Key)
    → p.key ≢ k
    → logged k (log outcome p us) ≡ logged k us
log_ne not_sent p us k apart = refl
log_ne _ p us k apart = fun_ext (λ t. ground (arith, apart))

pub charge_of :
    (p : Permit) (from t : Duration)
    → p.meta ≡ PermitMeta.fixed_window from
    → charge t p ≡ (if from == t then get p.cost else 0)
charge_of p from t is = rw is refl

log_self :
    (p : Permit) (us : List Permit) (from t : Duration)
    → p.meta ≡ PermitMeta.fixed_window from
    → charged p.key t (p ∷ us) ≡ (if from == t then get p.cost else 0) + charged p.key t us
log_self p us from t is = ground (arith, charge_of p from t is)

log-Uses :
    (window : Duration) (s : FixedWindowState) (p : Permit) (us : List Permit) (outcome : Outcome)
    → p.meta ≡ PermitMeta.fixed_window s.window_start
    → Uses window (logged p.key us) s
    → Uses window (logged p.key (log outcome p us)) (committed s p outcome)
log-Uses window s p us not_sent is u = record { spends = u.spends; later = u.later; room = u.room }
log-Uses window s p us _ is u = record {
  spends = ground (arith, log_self p us s.window_start s.window_start is, u.spends);
  later = λ t after. ground (arith, log_self p us s.window_start t is, u.later t after, after);
  room = u.room;
}

-- No window's permits, used at one key, exceed the maximum.
log-le :
    (max window : ℕ) (s : FixedWindowState) (p : Permit) (us : List Permit) (outcome : Outcome)
    (t : Duration)
    → p.meta ≡ PermitMeta.fixed_window s.window_start
    → Uses window (logged p.key us) s
    → s.spent + get p.cost ≤ max
    → charged p.key t us ≤ max
    → charged p.key t (log outcome p us) ≤ max
log-le max window s p us not_sent t is u le h = h
log-le max window s p us _ t is u le h = elim (ℕ_discrete s.window_start t) [
  | yes same ↦
      ground
        (arith, log_self p us s.window_start t is, u.spends, same, ap (logged p.key us) same, le)
  | no apart ↦ ground (arith, log_self p us s.window_start t is, apart, h)
]

-- The limiter tells what each key has used in its windows, and no window of a key is used beyond the maximum.
pub record Follows (max window : ℕ) (rl : RateLimiter) (us : List Permit) : Type 0 where
  pub len : HasLength window rl.cfg.algorithm
  pub unbounded : rl.cfg.max_keys ≡ none
  pub tells : (k : Key) → Tells window (logged k us) (HashMap.lookup k rl.buckets)
  pub within : (k : Key) (t : Duration) → charged k t us ≤ max

module _ (max window : ℕ) (us : List Permit) where
  -- The same settings keep the rest, where the buckets do.
  pub same-Follows :
      (rl rl' : RateLimiter)
      → rl'.cfg ≡ rl.cfg
      → ((k : Key) → Tells window (logged k us) (HashMap.lookup k rl'.buckets))
      → Follows max window rl us
      → Follows max window rl' us
  same-Follows rl rl' same tells f = record {
    len = subst (λ c. HasLength window c.algorithm) (sym same) f.len;
    unbounded = ap (λ c. c.max_keys) same ∙ f.unbounded;
    tells = tells;
    within = f.within;
  }

  pub admits :
      (rl : RateLimiter) (now : Duration) (k : Key)
      → IsAlgorithm rl.cfg.algorithm
      → now + window ≤ duration_max
      → Follows max window rl us
      → Tells window (logged k us) none
      → Tells window (logged k us) (some (Bucket.new now rl.cfg.algorithm))
  admits rl now k valid early f =
      fresh-Uses window (logged k us) rl.cfg.algorithm now f.len
        (positive rl.cfg.algorithm window valid f.len) early

  pub updated-Follows :
      (rl : RateLimiter) (cfg : Config) (now : Duration)
      → HasLength window cfg.algorithm
      → cfg.max_keys ≡ none
      → Follows max window rl us
      → Follows max window (update_config_unchecked rl cfg now) us
  unfolding update_config_unchecked
  updated-Follows rl cfg now len unbounded f = record {
    len = len;
    unbounded = unbounded;
    tells = λ k.
        updated-P k (Tells window (logged k us)) rl cfg now
          (λ b. on_update-Uses window (logged k us) b rl.cfg.algorithm cfg.algorithm now f.len len)
          (f.tells k);
    within = f.within;
  }

paid_for :
    (max : ℕ) (s : FixedWindowState) (cost : Cost)
    → s.spent + s.reserved ≤ max
    → get cost ≤ s.reserved
    → s.spent + get cost ≤ max
paid_for max s cost quota covered = omega (arith, quota, covered)

-- A commit logs its permit in the window that the permit belongs to.
pub commit-Follows :
    (max window : ℕ) (us : List Permit) (rl : RateLimiter) (before : List Permit) (p : Permit)
    (after : List Permit) (outcome : Outcome) (now : Duration)
    → IsBooked rl (before ++ p ∷ after)
    → ((b : BucketState) → HashMap.lookup p.key rl.buckets ≡ some b → Quota max b.algo)
    → Follows max window rl us
    → Follows max window (commit rl p outcome now) (log outcome p us)
commit-Follows max window us rl before p after outcome now h quota f =
    let (m, fixed) = algorithm_of rl.cfg.algorithm window f.len in
    let (s, (b, there, is), meta, (b', there', is')) =
      booked_counts rl before p after m window outcome now fixed h in
    let u : Uses window (logged p.key us) s =
      subst (UsesState window (logged p.key us)) is
        (subst (Tells window (logged p.key us)) there (f.tells p.key)) in
    let own : Tells window (logged p.key (log outcome p us))
        (HashMap.lookup p.key (commit rl p outcome now).buckets) =
      subst (Tells window (logged p.key (log outcome p us))) (sym there') (
        subst (UsesState window (logged p.key (log outcome p us))) (sym is')
          (log-Uses window s p us outcome meta u)) in
    let paid : s.spent + get p.cost ≤ max =
      paid_for max s p.cost (subst (Quota max) is (quota b there))
        (subst (Covered p.cost) is (out-Covered max rl before p after b h there)) in
    record {
      len = subst (λ c. HasLength window c.algorithm) (sym (commit_cfg rl p outcome now)) f.len;
      unbounded = ap (λ c. c.max_keys) (commit_cfg rl p outcome now) ∙ f.unbounded;
      tells = λ k. elim (ℕ_discrete p.key k) [
        | yes same ↦
            subst
              (λ j.
                Tells window (logged j (log outcome p us))
                  (HashMap.lookup j (commit rl p outcome now).buckets))
              same own
        | no apart ↦
            commit-P k (Tells window (logged k (log outcome p us))) rl p outcome now
              (λ algo b same. absurd (apart same))
              (subst (λ g. Tells window g (HashMap.lookup k rl.buckets))
                (sym (log_ne outcome p us k apart)) (f.tells k))
      ];
      within = λ k t. elim (ℕ_discrete p.key k) [
        | yes same ↦
            subst (λ j. charged j t (log outcome p us) ≤ max) same
              (log-le max window s p us outcome t meta u paid (f.within p.key t))
        | no apart ↦ subst (λ g. g t ≤ max) (sym (log_ne outcome p us k apart)) (f.within k t)
      ];
    }
