-- ===== src/Gate/Spacing.antt =====
-- The calls on one gate of src/durable_open_gate.rs: what each does to the cached lock. Nothing is
-- assumed of the database, and the system may change in any way between two calls.
use Prim.Native.String.{String}
use shared_rate_limiter.Base.{
  ℕ, ◌≤◌, ◌<◌, ◌≡◌, refl, subst, ◌∙◌, max, ltb, Bool-cases, inl, inr, Result, ok, err, List, [],
  ◌∷◌, arith, if-cases,
}
use shared_rate_limiter.Word.{u64_max}
use shared_rate_limiter.Types.{Duration}
use shared_rate_limiter.Gate.Types.{
  DurableOpenGateConfig, OpenGateDecision, allowed, blocked, heed, encode, count_attempt,
  duration_to_millis, millis_to_duration,
}
use shared_rate_limiter.Gate.Outside.{Outside}
use shared_rate_limiter.Gate.Open.{DurableOpenGate, Failure, read_lock_until_ms}
use shared_rate_limiter.Gate.Acquire.{
  lock_end, new_record, Answer, persist_error_decision, after_commit, after_put, after_encode,
  after_read, after_begin, acquire_at, try_acquire_open,
}

pub lock_end-le :
    (cfg : DurableOpenGateConfig) (now_ms : ℕ) → now_ms ≤ u64_max → now_ms ≤ lock_end cfg now_ms
unfolding lock_end
lock_end-le cfg now_ms h = omega arith

pub millis-le : (now : Duration) → duration_to_millis now ≤ u64_max
unfolding duration_to_millis
millis-le now = omega arith

-- What a result says of the cached lock before and after a call.
abbrev pub Decided :
    {E : Type 0} → DurableOpenGateConfig → ℕ → ℕ → Result OpenGateDecision E → ℕ → Type 0
Decided cfg now_ms before (ok (allowed until)) after =
    (before ≤ now_ms) × (after ≡ lock_end cfg now_ms) × (until ≡ millis_to_duration after)
Decided cfg now_ms before (ok (blocked until)) after =
    (before ≤ after) × (now_ms < after) × (until ≡ millis_to_duration after)
Decided cfg now_ms before (err e) after = after ≡ before

module _ (O : Outside) where
  -- The answer to a call on the gate `g`.
  pub record Fair (g : DurableOpenGate O) (now_ms : ℕ) (a : Answer O) : Type 0 where
    pub cfg : a.1.cfg ≡ g.cfg
    pub decided : Decided g.cfg now_ms g.cached_lock_until_ms a.0 a.1.cached_lock_until_ms

  module _ (g : DurableOpenGate O) (now_ms : ℕ) (due : g.cached_lock_until_ms ≤ now_ms) where
    persist_error_decision-Fair :
        (e : Failure O) (w : O.World) → Fair g now_ms (persist_error_decision O g e now_ms w)
    unfolding persist_error_decision
    persist_error_decision-Fair e w =
        if-cases {A = Answer O} (Fair g now_ms) g.cfg.fail_closed _ _
          (record { cfg = refl; decided = refl })
          (record { cfg = refl; decided = (due, refl, refl) })

    after_commit-Fair :
        (r : Result (Unit {0}) O.HeedError × O.World) → Fair g now_ms (after_commit O g now_ms r)
    unfolding after_commit
    after_commit-Fair (err e, w) = persist_error_decision-Fair (heed e) w
    after_commit-Fair (ok _, w) = record { cfg = refl; decided = (due, refl, refl) }

    after_put-Fair :
        (txn : O.Txn) (r : Result (Unit {0}) O.HeedError × O.World)
        → Fair g now_ms (after_put O g now_ms txn r)
    unfolding after_put
    after_put-Fair txn (err e, w) = persist_error_decision-Fair (heed e) (O.abort txn w)
    after_put-Fair txn (ok _, w) = after_commit-Fair (O.commit txn w)

    after_encode-Fair :
        (txn : O.Txn) (w : O.World) (r : Result O.Bytes String)
        → Fair g now_ms (after_encode O g now_ms txn w r)
    unfolding after_encode
    after_encode-Fair txn w (err e) = persist_error_decision-Fair (encode e) (O.abort txn w)
    after_encode-Fair txn w (ok bytes) =
        after_put-Fair txn (O.put g.db txn g.cfg.record_key bytes w)

    after_read-Fair :
        (txn : O.Txn) (w : O.World) (r : Result ℕ (Failure O))
        → Fair g now_ms (after_read O g now_ms txn w r)
    unfolding after_read
    after_read-Fair txn w (err e) = persist_error_decision-Fair e (O.abort txn w)
    after_read-Fair txn w (ok persisted) =
        elim (Bool-cases (ltb now_ms (max g.cached_lock_until_ms persisted))) [
          | inl locked ↦
              rw locked (record { cfg = refl; decided = (omega arith, ground arith, refl) })
          | inr free ↦ rw free (after_encode-Fair txn w (O.to_bytes (new_record g.cfg now_ms)))
        ]

    after_begin-Fair :
        (r : Result O.Txn O.HeedError × O.World) → Fair g now_ms (after_begin O g now_ms r)
    unfolding after_begin
    after_begin-Fair (err e, w) = record { cfg = refl; decided = refl }
    after_begin-Fair (ok txn, w) = after_read-Fair txn w (read_lock_until_ms O g txn w)

  acquire_at-Fair :
      (g : DurableOpenGate O) (now_ms : ℕ) (w : O.World) → Fair g now_ms (acquire_at O g now_ms w)
  unfolding acquire_at
  acquire_at-Fair g now_ms w = elim (Bool-cases (ltb now_ms g.cached_lock_until_ms)) [
    | inl locked ↦ rw locked (record { cfg = refl; decided = (omega arith, ground arith, refl) })
    | inr free ↦ rw free (after_begin-Fair g now_ms (ground arith) (O.write_txn g.env w))
  ]

  pub try_acquire_open-Fair :
      (g : DurableOpenGate O) (now : Duration) (w : O.World)
      → Fair g (duration_to_millis now) (try_acquire_open O g now w)
  unfolding try_acquire_open
  try_acquire_open-Fair g now w =
      let f =
        acquire_at-Fair (record g { stats = count_attempt g.stats }) (duration_to_millis now) w in
      record { cfg = f.cfg; decided = f.decided }

  -- The gate behind calls one after another, each with its time and the system as it finds it.
  unfoldable pub run : DurableOpenGate O → List (Duration × O.World) → DurableOpenGate O
  unfolding try_acquire_open
  run g [] = g
  run g ((now, w) ∷ calls) = run (try_acquire_open O g now w).1 calls

  Decided-le :
      (cfg : DurableOpenGateConfig) (now_ms before after : ℕ)
      (r : Result OpenGateDecision (Failure O))
      → now_ms ≤ u64_max
      → Decided cfg now_ms before r after
      → before ≤ after
  Decided-le cfg now_ms before after (ok (allowed t)) h d =
      omega (arith, d.0, d.1, lock_end-le cfg now_ms h)
  Decided-le cfg now_ms before after (ok (blocked t)) h d = d.0
  Decided-le cfg now_ms before after (err e) h d = omega (arith, d)

  pub run-le :
      (g : DurableOpenGate O) (calls : List (Duration × O.World))
      → (g.cached_lock_until_ms ≤ (run g calls).cached_lock_until_ms) × ((run g calls).cfg ≡ g.cfg)
  unfolding run
  run-le g [] = (omega arith, refl)
  run-le g ((now, w) ∷ calls) =
      let f = try_acquire_open-Fair g now w in
      let a = try_acquire_open O g now w in
      let grows =
        Decided-le g.cfg (duration_to_millis now) g.cached_lock_until_ms a.1.cached_lock_until_ms
          a.0 (millis-le now) f.decided in
      let (rest, same) = run-le a.1 calls in (omega (arith, grows, rest), same ∙ f.cfg)

  -- Two grants of one gate, with any calls between them, are a window apart in whole milliseconds,
  -- whether the gate fails closed or open, and whatever the database answers to any call. The
  -- later grant ends no sooner than the earlier one.
  pub run_apart :
      (g : DurableOpenGate O) (now later : Duration) (w w' : O.World)
      (calls : List (Duration × O.World)) {until until' : Duration}
      → (try_acquire_open O g now w).0 ≡ ok (allowed until)
      → (try_acquire_open O (run (try_acquire_open O g now w).1 calls) later w').0
        ≡ ok (allowed until')
      → (lock_end g.cfg (duration_to_millis now) ≤ duration_to_millis later) × (until ≤ until')
  unfolding millis_to_duration
  run_apart g now later w w' calls {until} {until'} first second =
      let a = try_acquire_open O g now w in
      let h = run a.1 calls in
      let b = try_acquire_open O h later w' in
      let d =
        subst
          (λ r.
            Decided g.cfg (duration_to_millis now) g.cached_lock_until_ms r
              a.1.cached_lock_until_ms)
          first (try_acquire_open-Fair g now w).decided in
      let d' =
        subst
          (λ r.
            Decided h.cfg (duration_to_millis later) h.cached_lock_until_ms r
              b.1.cached_lock_until_ms)
          second (try_acquire_open-Fair h later w').decided in
      let grows = (run-le a.1 calls).0 in
      let end-le = lock_end-le h.cfg (duration_to_millis later) (millis-le later) in
      (omega (arith, d.1, d'.0, grows), omega (arith, d.1, d.2, d'.0, d'.1, d'.2, grows, end-le))
