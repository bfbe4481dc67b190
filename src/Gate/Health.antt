-- ===== src/Gate/Health.antt =====
-- src/durable_open_gate.rs: the calls on a gate whose database serves every request.
use Prim.Native.String.{String}
use shared_rate_limiter.Base.{
  ℕ, ◌≤◌, ◌≡◌, refl, ap, ◌∙◌, max, true, ltb, Option, none, some, Result, ok, err, arith, if-cases,
}
use shared_rate_limiter.Types.{Duration}
use shared_rate_limiter.Gate.Types.{
  DurableOpenGateConfig, OpenGateDecision, allowed, blocked, OpenGateRecordV1, count_attempt,
  duration_to_millis, millis_to_duration,
}
use shared_rate_limiter.Gate.Outside.{Outside}
use shared_rate_limiter.Gate.Open.{
  DurableOpenGate, Failure, decoded, decode_lock, read_lock_until_ms,
}
use shared_rate_limiter.Gate.Acquire.{
  lock_end, new_record, Answer, after_commit, after_put, after_encode, after_read, after_begin,
  acquire_at, try_acquire_open,
}
use shared_rate_limiter.Gate.Lawful.{View, IsLawful}
use shared_rate_limiter.Gate.Abstract.{Spec, lock_of}
use shared_rate_limiter.Gate.Refinement.{try_acquire_open-Meets}

abbrev pub Succeeds : {A E : Type 0} → Result A E → Type 0
Succeeds {A} r = (a : A) × (r ≡ ok a)

-- No operation of a write transaction fails.
pub record IsHealthy (O : Outside) : Type 0 where
  pub write_txn : (env : O.Env) (w : O.World) → Succeeds (O.write_txn env w).0
  pub get : (db : O.Db) (txn : O.Txn) (key : String) (w : O.World) → Succeeds (O.get db txn key w)
  pub put :
      (db : O.Db) (txn : O.Txn) (key : String) (bytes : O.Bytes) (w : O.World)
      → Succeeds (O.put db txn key bytes w).0
  pub commit : (txn : O.Txn) (w : O.World) → Succeeds (O.commit txn w).0
  pub to_bytes : (r : OpenGateRecordV1) → Succeeds (O.to_bytes r)
  pub from_bytes : (bytes : O.Bytes) → Succeeds (O.from_bytes bytes)

module _ (O : Outside) (H : IsHealthy O) where
  decoded-Succeeds : (r : Result OpenGateRecordV1 String) → Succeeds r → Succeeds (decoded O r)
  unfolding decoded
  decoded-Succeeds (ok r) h = (r.lock_until_ms, refl)
  decoded-Succeeds (err e) h = absurd (cc h.1)

  decode_lock-Succeeds :
      (r : Result (Option O.Bytes) O.HeedError) → Succeeds r → Succeeds (decode_lock O r)
  unfolding decode_lock
  decode_lock-Succeeds (err e) h = absurd (cc h.1)
  decode_lock-Succeeds (ok none) h = (0, refl)
  decode_lock-Succeeds (ok (some raw)) h = decoded-Succeeds (O.from_bytes raw) (H.from_bytes raw)

  module _ (g : DurableOpenGate O) (now_ms : ℕ) where
    after_commit-Succeeds :
        (r : Result (Unit {0}) O.HeedError × O.World)
        → Succeeds r.0
        → Succeeds (after_commit O g now_ms r).0
    unfolding after_commit
    after_commit-Succeeds (ok _, w) h = (_, refl)
    after_commit-Succeeds (err e, w) h = absurd (cc h.1)

    after_put-Succeeds :
        (txn : O.Txn) (r : Result (Unit {0}) O.HeedError × O.World)
        → Succeeds r.0
        → Succeeds (after_put O g now_ms txn r).0
    unfolding after_put
    after_put-Succeeds txn (ok _, w) h = after_commit-Succeeds (O.commit txn w) (H.commit txn w)
    after_put-Succeeds txn (err e, w) h = absurd (cc h.1)

    after_encode-Succeeds :
        (txn : O.Txn) (w : O.World) (r : Result O.Bytes String)
        → Succeeds r
        → Succeeds (after_encode O g now_ms txn w r).0
    unfolding after_encode
    after_encode-Succeeds txn w (ok bytes) h =
        after_put-Succeeds txn (O.put g.db txn g.cfg.record_key bytes w)
          (H.put g.db txn g.cfg.record_key bytes w)
    after_encode-Succeeds txn w (err e) h = absurd (cc h.1)

    after_read-Succeeds :
        (txn : O.Txn) (w : O.World) (r : Result ℕ (Failure O))
        → Succeeds r
        → Succeeds (after_read O g now_ms txn w r).0
    unfolding after_read
    after_read-Succeeds txn w (err e) h = absurd (cc h.1)
    after_read-Succeeds txn w (ok found) h =
        if-cases {A = Answer O} (λ a. Succeeds a.0) (ltb now_ms (max g.cached_lock_until_ms found))
          _ _ (_, refl)
          (after_encode-Succeeds txn w (O.to_bytes (new_record g.cfg now_ms))
            (H.to_bytes (new_record g.cfg now_ms)))

    after_begin-Succeeds :
        (r : Result O.Txn O.HeedError × O.World)
        → Succeeds r.0
        → Succeeds (after_begin O g now_ms r).0
    unfolding after_begin read_lock_until_ms
    after_begin-Succeeds (err e, w) h = absurd (cc h.1)
    after_begin-Succeeds (ok txn, w) h = after_read-Succeeds txn w (read_lock_until_ms O g txn w) (
        decode_lock-Succeeds (O.get g.db txn g.cfg.record_key w)
          (H.get g.db txn g.cfg.record_key w))

    acquire_at-Succeeds : (w : O.World) → Succeeds (acquire_at O g now_ms w).0
    unfolding acquire_at
    acquire_at-Succeeds w =
        if-cases {A = Answer O} (λ a. Succeeds a.0) (ltb now_ms g.cached_lock_until_ms) _ _
          (_, refl) (after_begin-Succeeds (O.write_txn g.env w) (H.write_txn g.env w))

  try_acquire_open-Succeeds :
      (g : DurableOpenGate O) (now : Duration) (w : O.World)
      → Succeeds (try_acquire_open O g now w).0
  unfolding try_acquire_open
  try_acquire_open-Succeeds g now w =
      acquire_at-Succeeds (record g { stats = count_attempt g.stats }) (duration_to_millis now) w

-- The abstract gate, where it answers and its lock has ended.
Spec-due :
    {E : Type 0} (cfg : DurableOpenGateConfig) (now_ms lock lock' : ℕ)
    (r : Result OpenGateDecision E)
    → Succeeds r
    → lock ≤ now_ms
    → Spec cfg now_ms lock r lock'
    → r ≡ ok (allowed (millis_to_duration (lock_end cfg now_ms)))
Spec-due cfg now_ms lock lock' (ok (allowed until)) h due (free, new, is) =
    ap (λ t. ok (allowed t)) (is ∙ ap millis_to_duration new)
Spec-due cfg now_ms lock lock' (ok (blocked until)) h due (held, same, before) =
    absurd (omega (arith, held, due))
Spec-due cfg now_ms lock lock' (err e) h due spec = absurd (cc h.1)

module _ (O : Outside) (V : View O) (L : IsLawful O V) (H : IsHealthy O) where
  -- Over a lawful database that serves every request, a gate that fails closed grants whenever its lock,
  -- in the cache and in the database, has ended, and the grant ends with the new lock.
  pub grants_due :
      (g : DurableOpenGate O) (now : Duration) (w : O.World)
      → g.cfg.fail_closed ≡ true
      → lock_of O V g w ≤ duration_to_millis now
      → (try_acquire_open O g now w).0
        ≡ ok (allowed (millis_to_duration (lock_end g.cfg (duration_to_millis now))))
  grants_due g now w closed due =
      Spec-due g.cfg (duration_to_millis now) (lock_of O V g w) _ (try_acquire_open O g now w).0
        (try_acquire_open-Succeeds O H g now w) due
        (try_acquire_open-Meets O V L g w now closed).spec
