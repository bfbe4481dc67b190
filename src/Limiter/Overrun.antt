-- ===== src/Limiter/Overrun.antt =====
-- The permits that were used under a fixed window of src/limiter.rs, logged over a history of calls, against
-- the windows that they were issued in. The log is of the calls alone and does not read the limiter.
use native.Mathlib.Decide.{ℕ_discrete}
use shared_rate_limiter.Base.{
  ℕ, ◌+◌, ◌≤◌, ◌≡◌, refl, sym, ap, ◌∙◌, subst, if◌then◌else◌, ◌==◌, ==_iff, Option, none, some,
  List, [], ◌∷◌, All, arith, nat_eq, true, false,
}
use shared_rate_limiter.Word.{u32_max, duration_max}
use shared_rate_limiter.Types.{Key, Duration, Permit, PermitMeta}
use shared_rate_limiter.Config.{Config, AlgorithmConfig, IsAlgorithm}
use shared_rate_limiter.HashMap
use shared_rate_limiter.Bucket
use shared_rate_limiter.Bucket.{BucketState, AlgoState}
use shared_rate_limiter.Bucket.Ledger.{total, Booked, Stamped}
use shared_rate_limiter.Bucket.Quota.{Quota, Below}
use shared_rate_limiter.Bucket.Usage.{charged, HasLength, UsesState, try_reserve-Uses, refund-Uses}
use shared_rate_limiter.Limiter.State.{new_at}
use shared_rate_limiter.Limiter.Ramp.{effective_algorithm}
use shared_rate_limiter.Limiter.Ledger.{held, AtKey}
use shared_rate_limiter.Limiter.Booking.{IsBooked}
use shared_rate_limiter.Limiter.Acquire.{try_acquire}
use shared_rate_limiter.Limiter.Feedback.{apply_feedback}
use shared_rate_limiter.Limiter.Finalize.{refund}
use shared_rate_limiter.Limiter.Settings.{try_acquire_cfg, refund_cfg, apply_feedback_cfg}
use shared_rate_limiter.Limiter.History.{
  World, start, Step, acquires, commits, refunds, feeds, updates, Reach, here, next, IsSound,
  Reach-IsSound,
}
use shared_rate_limiter.Limiter.Log.{
  log, charge_of, Tells, logged, positive, effective-HasLength, Follows, same-Follows, admits,
  updated-Follows, commit-Follows,
}
use shared_rate_limiter.Limiter.Frame.{
  try_acquire-P, refund-P, apply_feedback-P, update_config-cases,
}
use shared_rate_limiter.Limiter.Guarantee.{AllowsAll, Guards, Reach-Guards}

-- The permits that were used, after a call: a commit uses its permit.
abbrev logs : {w v : World} → Step w v → List Permit → List Permit
logs (commits before p after outcome now out e) us = log outcome p us
logs _ us = us

-- The permits that the commits of a history have used.
abbrev pub used : {w v : World} → Reach w v → List Permit
used here = []
used (next r s) = logs s (used r)

-- A window's length after an attempt, a refund or a feedback still is a `Duration`, and an update keeps that
-- length and sets no bound on the keys.
abbrev pub IsRegular : Duration → {w v : World} → Step w v → Type 0
IsRegular window (acquires route_key cost now valid fits e) = now + window ≤ duration_max
IsRegular window (commits before p after outcome now out e) = Unit
IsRegular window (refunds before p after now out e) = now + window ≤ duration_max
IsRegular window (feeds route_key feedback now e) = now + window ≤ duration_max
IsRegular window (updates cfg now valid e) = HasLength window cfg.algorithm × (cfg.max_keys ≡ none)

abbrev pub AllRegular : Duration → {w v : World} → Reach w v → Type 0
AllRegular window here = Unit
AllRegular window (next r s) = AllRegular window r × IsRegular window s

module _ (max window : ℕ) (fits : max ≤ u32_max) where
  Step-Follows :
      {w v : World} (s : Step w v) (us : List Permit)
      → IsRegular window s
      → IsSound w
      → Guards max fits w.limiter
      → Follows max window w.limiter us
      → Follows max window v.limiter (logs s us)
  unfolding Bucket.apply_blocked_until
  Step-Follows {w} (acquires route_key cost now valid room e) us early x g f =
      subst (λ u. Follows max window u.limiter us) (sym e)
        (same-Follows max window us w.limiter (try_acquire w.limiter route_key cost now).1
          (try_acquire_cfg w.limiter route_key cost now)
          (λ k.
            try_acquire-P k (Tells window (logged k us)) w.limiter route_key cost now f.unbounded
              (admits max window us w.limiter now k x.algorithm early f)
              (λ b i.
                try_reserve-Uses window (logged k us) b i (effective_algorithm w.limiter now) cost
                  now (effective-HasLength w.limiter now window f.len)
                  (positive w.limiter.cfg.algorithm window x.algorithm f.len) early)
              (f.tells k))
          f)
  Step-Follows {w} (commits before p after outcome now out e) us early x g f =
      subst (λ u. Follows max window u.limiter (log outcome p us)) (sym e)
        (commit-Follows max window us w.limiter before p after outcome now
          (subst (IsBooked w.limiter) out x) (g.quota p.key) f)
  Step-Follows {w} (refunds before p after now out e) us early x g f =
      subst (λ u. Follows max window u.limiter us) (sym e)
        (same-Follows max window us w.limiter (refund w.limiter p now) (refund_cfg w.limiter p now)
          (λ k.
            refund-P k (Tells window (logged k us)) w.limiter p now
              (λ b.
                refund-Uses window (logged k us) b p now w.limiter.cfg.algorithm f.len
                  (positive w.limiter.cfg.algorithm window x.algorithm f.len) early)
              (f.tells k))
          f)
  Step-Follows {w} (feeds route_key feedback now e) us early x g f =
      subst (λ u. Follows max window u.limiter us) (sym e)
        (same-Follows max window us w.limiter (apply_feedback w.limiter route_key feedback now)
          (apply_feedback_cfg w.limiter route_key feedback now)
          (λ k.
            apply_feedback-P k (Tells window (logged k us)) w.limiter route_key feedback now
              f.unbounded (admits max window us w.limiter now k x.algorithm early f)
              (λ b until h. h) (f.tells k))
          f)
  Step-Follows {w} (updates cfg now valid e) us (len, unbounded) x g f =
      subst (λ u. Follows max window u.limiter us) (sym e)
        (update_config-cases (λ rl. Follows max window rl us) w.limiter cfg now f
          (updated-Follows max window us w.limiter cfg now len unbounded f))

  start-Follows :
      (cfg : Config) (started_at : Duration)
      → HasLength window cfg.algorithm
      → cfg.max_keys ≡ none
      → Follows max window (start cfg started_at).limiter []
  unfolding new_at HashMap.lookup
  start-Follows cfg started_at len unbounded = record {
    len = len;
    unbounded = unbounded;
    tells = λ k t. refl;
    within = λ k t. omega arith;
  }

  Reach-Follows :
      (cfg : Config) (started_at : Duration) {w : World}
      → IsAlgorithm cfg.algorithm
      → HasLength window cfg.algorithm
      → Below max cfg.algorithm
      → cfg.max_keys ≡ none
      → (r : Reach (start cfg started_at) w) → AllRegular window r
      → AllowsAll max r
      → Follows max window w.limiter (used r)
  Reach-Follows cfg started_at valid len le unbounded here early a =
      start-Follows cfg started_at len unbounded
  Reach-Follows cfg started_at valid len le unbounded (next r s) early a =
      Step-Follows s (used r) early.1 (Reach-IsSound cfg started_at valid r)
        (Reach-Guards max fits cfg started_at valid le r a.0)
        (Reach-Follows cfg started_at valid len le unbounded r early.0 a.0)

-- The permits that are out are charged to the present window.
held_charged :
    (k : Key) (from t : Duration) (ps : List Permit)
    → All (Stamped (PermitMeta.fixed_window from)) (held k ps)
    → charged k t ps ≡ (if from == t then total (held k ps) else 0)
held_charged k from t [] h = ground arith
held_charged k from t (p ∷ ps) h = elim (ℕ_discrete p.key k) [
  | yes same ↦
      let is : (p.key == k) ≡ true = (==_iff p.key k).1 same in
      let h' : All (Stamped (PermitMeta.fixed_window from)) (p ∷ held k ps) =
        subst
          (λ b.
            All (Stamped (PermitMeta.fixed_window from)) (if b then p ∷ held k ps else held k ps))
          is h in
      ground (arith, same, charge_of p from t h'.0.1, held_charged k from t ps h'.1)
  | no apart ↦
      let is : (p.key == k) ≡ false = ground (arith, apart) in
      let h' : All (Stamped (PermitMeta.fixed_window from)) (held k ps) =
        subst
          (λ b.
            All (Stamped (PermitMeta.fixed_window from)) (if b then p ∷ held k ps else held k ps))
          is h in
      ground (arith, apart, held_charged k from t ps h')
]

-- What is used and what is out, at a key whose bucket tells the one and accounts for the other.
charged_le :
    (max window : ℕ) (algo : AlgorithmConfig) (o : Option BucketState) (k : Key) (t : Duration)
    (us out : List Permit)
    → HasLength window algo
    → Tells window (logged k us) o
    → AtKey algo o (held k out)
    → ((b : BucketState) → o ≡ some b → Quota max b.algo)
    → charged k t us ≤ max
    → charged k t us + charged k t out ≤ max
charged_le max window algo none k t us out len tells at quota h =
    let unheld : charged k t out ≡ (if 0 == t then total (held k out) else 0) =
      held_charged k 0 t out (subst (All (Stamped (PermitMeta.fixed_window 0))) (sym at) tt) in
    let nothing : total (held k out) ≡ 0 = ap total at in ground (arith, unheld, nothing, h)
charged_le max window (AlgorithmConfig.fixed_window m w) (some b) k t us out len tells at quota h =
    go b.algo tells at (quota b refl)
  where
    go :
        (state : AlgoState)
        → UsesState window (logged k us) state
        → Booked (AlgorithmConfig.fixed_window m w) state (held k out)
        → Quota max state
        → charged k t us + charged k t out ≤ max
    go (AlgoState.fixed_window s) u (reserved, fits, stamps) q =
        let out_is = held_charged k s.window_start t out stamps in
        elim (ℕ_discrete s.window_start t) [
          | yes same ↦
              let spent : charged k t us ≡ s.spent = sym (ap (logged k us) same) ∙ u.spends in
              ground (arith, out_is, same, spent, reserved, q)
          | no apart ↦ ground (arith, out_is, apart, h)
        ]
    go (AlgoState.token_bucket s) u at' q = absurd u
charged_le max window (AlgorithmConfig.token_bucket c r) (some b) k t us out len tells at quota h =
    absurd len

-- No window is overrun: on a new limiter of a valid fixed window without a bound on its keys, each permit
-- finalized at most once and the costs that are out within a u64, where the configuration and its updates
-- grant no more than `max` in a window, a u32, and the updates keep its length and set no bound on the keys,
-- and where the time of each attempt, refund and feedback and the window's length add up to a time that a
-- `Duration` holds: the costs of a key's permits that carry the start of one window, those that commits have
-- used, a commit of a request that was not sent aside, and those that are out, are together at most `max`, in
-- whatever order the times come.
pub window_used :
    (max window : ℕ) (cfg : Config) (started_at : Duration) {w : World} (k : Key) (t : Duration)
    → max ≤ u32_max
    → IsAlgorithm cfg.algorithm
    → HasLength window cfg.algorithm
    → Below max cfg.algorithm
    → cfg.max_keys ≡ none
    → (r : Reach (start cfg started_at) w) → AllRegular window r
    → AllowsAll max r
    → charged k t (used r) + charged k t w.outstanding ≤ max
window_used max window cfg started_at {w} k t fits valid len le unbounded r early a =
    let f = Reach-Follows max window fits cfg started_at valid len le unbounded r early a in
    let g = Reach-Guards max fits cfg started_at valid le r a in
    charged_le max window w.limiter.cfg.algorithm (HashMap.lookup k w.limiter.buckets) k t (used r)
      w.outstanding f.len (f.tells k) ((Reach-IsSound cfg started_at valid r).accounts.at k)
      (g.quota k) (f.within k t)
