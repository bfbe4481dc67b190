-- ===== src/Gate/Faults.antt =====
-- src/durable_open_gate.rs: the errors of a gate that does not fail closed, and a window below the
-- precision of the lock.
use Prim.Native.String.{String}
use shared_rate_limiter.Base.{
  ℕ, ◌<◌, ◌≡◌, refl, subst, ap, ◌∙◌, max, false, true, ltb, Result, ok, err, arith, if-cases,
}
use shared_rate_limiter.Types.{Duration}
use shared_rate_limiter.Gate.Types.{
  DurableOpenGateConfig, allowed, blocked, heed, encode, count_attempt, duration_to_millis,
}
use shared_rate_limiter.Gate.Outside.{Outside}
use shared_rate_limiter.Gate.Open.{DurableOpenGate, Failure, read_lock_until_ms}
use shared_rate_limiter.Gate.Acquire.{
  lock_end, new_record, Answer, persist_error_decision, after_commit, after_put, after_encode,
  after_read, after_begin, acquire_at, try_acquire_open,
}
use shared_rate_limiter.Gate.Lawful.{View, IsLawful}
use shared_rate_limiter.Gate.Stored.{persisted, persisted_same}
use shared_rate_limiter.Gate.Abstract.{Spec}
use shared_rate_limiter.Gate.Refinement.{try_acquire_open-Meets}

module _ (O : Outside) where
  -- A decision, or the error of a transaction that did not start, which is not counted as a failure.
  abbrev pub Decides : DurableOpenGate O → O.World → Answer O → Type 0
  Decides g w (ok d, h, w') = Unit
  Decides g w (err e, h, w') =
      (h.stats.persist_failures_total ≡ g.stats.persist_failures_total)
      × ((x : O.HeedError) × (e ≡ heed x) × ((O.write_txn g.env w).0 ≡ err x))

  module _ (g : DurableOpenGate O) (now_ms : ℕ) (passes : g.cfg.fail_closed ≡ false)
      (w : O.World) where
    persist_error_decision-Decides :
        (e : Failure O) (w' : O.World) → Decides g w (persist_error_decision O g e now_ms w')
    unfolding persist_error_decision
    persist_error_decision-Decides e w' = rw passes tt

    after_commit-Decides :
        (r : Result (Unit {0}) O.HeedError × O.World) → Decides g w (after_commit O g now_ms r)
    unfolding after_commit
    after_commit-Decides (err e, w') = persist_error_decision-Decides (heed e) w'
    after_commit-Decides (ok _, w') = tt

    after_put-Decides :
        (txn : O.Txn) (r : Result (Unit {0}) O.HeedError × O.World)
        → Decides g w (after_put O g now_ms txn r)
    unfolding after_put
    after_put-Decides txn (err e, w') = persist_error_decision-Decides (heed e) (O.abort txn w')
    after_put-Decides txn (ok _, w') = after_commit-Decides (O.commit txn w')

    after_encode-Decides :
        (txn : O.Txn) (w' : O.World) (r : Result O.Bytes String)
        → Decides g w (after_encode O g now_ms txn w' r)
    unfolding after_encode
    after_encode-Decides txn w' (err e) = persist_error_decision-Decides (encode e) (O.abort txn w')
    after_encode-Decides txn w' (ok bytes) =
        after_put-Decides txn (O.put g.db txn g.cfg.record_key bytes w')

    after_read-Decides :
        (txn : O.Txn) (w' : O.World) (r : Result ℕ (Failure O))
        → Decides g w (after_read O g now_ms txn w' r)
    unfolding after_read
    after_read-Decides txn w' (err e) = persist_error_decision-Decides e (O.abort txn w')
    after_read-Decides txn w' (ok found) =
        if-cases {A = Answer O} (Decides g w) (ltb now_ms (max g.cached_lock_until_ms found)) _ _ tt
          (after_encode-Decides txn w' (O.to_bytes (new_record g.cfg now_ms)))

    after_begin-Decides :
        (r : Result O.Txn O.HeedError × O.World)
        → (O.write_txn g.env w).0 ≡ r.0
        → Decides g w (after_begin O g now_ms r)
    unfolding after_begin
    after_begin-Decides (err e, w') began = (refl, (e, refl, began))
    after_begin-Decides (ok txn, w') began =
        after_read-Decides txn w' (read_lock_until_ms O g txn w')

    acquire_at-Decides : Decides g w (acquire_at O g now_ms w)
    unfolding acquire_at
    acquire_at-Decides =
        if-cases {A = Answer O} (Decides g w) (ltb now_ms g.cached_lock_until_ms) _ _ tt
          (after_begin-Decides (O.write_txn g.env w) refl)

  -- A gate that does not fail closed answers every attempt with a decision, whatever fails of the
  -- read, the encoding, the write and the commit. Its one error is that of a write transaction that does
  -- not start, and this one is not counted as a persistence failure.
  pub fail_open-Decides :
      (g : DurableOpenGate O) (now : Duration) (w : O.World)
      → g.cfg.fail_closed ≡ false
      → Decides g w (try_acquire_open O g now w)
  unfolding try_acquire_open count_attempt
  fail_open-Decides g now w passes =
      acquire_at-Decides (record g { stats = count_attempt g.stats }) (duration_to_millis now)
        passes w

short_end :
    (cfg : DurableOpenGateConfig) (now : Duration)
    → cfg.window < 1_000_000
    → lock_end cfg (duration_to_millis now) ≡ duration_to_millis now
unfolding lock_end duration_to_millis
short_end cfg now short = omega (arith, short)

module _ (O : Outside) (V : View O) (L : IsLawful O V) where
  -- Over a lawful database, a window of less than a millisecond, which `open` admits, locks nothing: a gate that fails closed and
  -- has granted is not blocked when it is asked again at the same time.
  pub short_window_unblocked :
      (g : DurableOpenGate O) (now : Duration) (w : O.World) {until until' : Duration}
      → g.cfg.fail_closed ≡ true
      → g.cfg.window < 1_000_000
      → (try_acquire_open O g now w).0 ≡ ok (allowed until)
      → ¬ (
          (try_acquire_open O (try_acquire_open O g now w).1 now (try_acquire_open O g now w).2).0
          ≡ ok (blocked until'))
  short_window_unblocked g now w {until} {until'} closed short first second =
      let a = try_acquire_open O g now w in
      let b = try_acquire_open O a.1 now a.2 in
      let now_ms = duration_to_millis now in
      let m = try_acquire_open-Meets O V L g w now closed in
      let m' = try_acquire_open-Meets O V L a.1 a.2 now (ap (λ c. c.fail_closed) m.cfg ∙ closed) in
      let s =
        subst
          (λ r.
            Spec g.cfg now_ms (max g.cached_lock_until_ms (persisted O V g w)) r
              (max a.1.cached_lock_until_ms (persisted O V g a.2)))
          first m.spec in
      let s' =
        subst
          (λ r.
            Spec a.1.cfg now_ms (max a.1.cached_lock_until_ms (persisted O V a.1 a.2)) r
              (max b.1.cached_lock_until_ms (persisted O V a.1 b.2)))
          second m'.spec in
      omega
        (arith, s.1, s'.0, short_end g.cfg now short, persisted_same O V g a.1 a.2 m.env m.db m.cfg)
