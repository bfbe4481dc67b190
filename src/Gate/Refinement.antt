-- ===== src/Gate/Refinement.antt =====
-- src/durable_open_gate.rs: a call of `try_acquire_open` as a call of the abstract gate.
use Prim.Native.String.{String}
use shared_rate_limiter.Base.{
  ℕ, ◌≤◌, ◌≡◌, refl, sym, ap, ◌∙◌, max, true, ltb, Bool-cases, inl, inr, some, Result, ok, err,
  arith,
}
use shared_rate_limiter.Word.{u64_max}
use shared_rate_limiter.Types.{Duration}
use shared_rate_limiter.Gate.Types.{
  heed, encode, count_attempt, duration_to_millis, millis_to_duration,
}
use shared_rate_limiter.Gate.Outside.{Outside}
use shared_rate_limiter.Gate.Open.{DurableOpenGate, Failure, decoded, read_lock_until_ms}
use shared_rate_limiter.Gate.Acquire.{
  lock_end, new_record, persist_error_decision, after_commit, after_put, after_encode, after_read,
  after_begin, acquire_at, try_acquire_open,
}
use shared_rate_limiter.Gate.Lawful.{View, IsLawful, Began, Committed, Put}
use shared_rate_limiter.Gate.Abstract.{millis_to_duration_mono, lock_of, Meets}
use shared_rate_limiter.Gate.Stored.{record_lock, lock_in, persisted, Read, decode_lock-Read}
use shared_rate_limiter.Gate.Spacing.{lock_end-le, millis-le}

module _ (O : Outside) (V : View O) where
  module _ (L : IsLawful O V) (g : DurableOpenGate O) (w : O.World) (now_ms : ℕ)
      (closed : g.cfg.fail_closed ≡ true) where
    -- A failure where nothing new is stored.
    failure-Meets :
        (e : Failure O) (w' : O.World)
        → persisted O V g w' ≡ persisted O V g w
        → Meets O V g w now_ms (persist_error_decision O g e now_ms w')
    unfolding persist_error_decision
    failure-Meets e w' same = rw closed (record {
      env = refl;
      db = refl;
      cfg = refl;
      stored = tt;
      spec = inl (ap (max g.cached_lock_until_ms) same);
    })

    -- A failure that stored the new lock.
    stored-Meets :
        (e : Failure O) (w' : O.World)
        → now_ms ≤ u64_max
        → lock_of O V g w ≤ now_ms
        → persisted O V g w' ≡ lock_end g.cfg now_ms
        → Meets O V g w now_ms (persist_error_decision O g e now_ms w')
    unfolding persist_error_decision
    stored-Meets e w' small due new = rw closed (record {
      env = refl;
      db = refl;
      cfg = refl;
      stored = tt;
      spec = inr (due, omega (arith, due, new, lock_end-le g.cfg now_ms small));
    })

    kept_persisted :
        (w' : O.World) → V.stored w' ≡ V.stored w → persisted O V g w' ≡ persisted O V g w
    kept_persisted w' e =
        ap (λ s. lock_in O (s (V.env_path g.env) (V.db_name g.db) g.cfg.record_key)) e

    -- A transaction of the gate, behind its write.
    module _ (txn : O.Txn) (w₁ : O.World) (bytes : O.Bytes) (same : V.stored w₁ ≡ V.stored w)
        (path : V.txn_path txn ≡ V.env_path g.env)
        (written : V.seen txn w₁ (V.db_name g.db) g.cfg.record_key ≡ some bytes)
        (decoded : O.from_bytes bytes ≡ ok (new_record g.cfg now_ms)) (small : now_ms ≤ u64_max)
        (due : lock_of O V g w ≤ now_ms) where
      bytes_lock : lock_in O (some bytes) ≡ lock_end g.cfg now_ms
      unfolding new_record
      bytes_lock = ap (record_lock O) decoded

      new_persisted :
          (w' : O.World)
          → V.stored w' (V.txn_path txn) ≡ V.seen txn w₁
          → persisted O V g w' ≡ lock_end g.cfg now_ms
      new_persisted w' e =
          ap (λ p. lock_in O (V.stored w' p (V.db_name g.db) g.cfg.record_key)) (sym path)
          ∙ ap (λ s. lock_in O (s (V.db_name g.db) g.cfg.record_key)) e
          ∙ ap (lock_in O) written
          ∙ bytes_lock

      old_persisted :
          (w' : O.World)
          → V.stored w' (V.txn_path txn) ≡ V.stored w₁ (V.txn_path txn)
          → persisted O V g w' ≡ persisted O V g w
      old_persisted w' e =
          ap (λ p. lock_in O (V.stored w' p (V.db_name g.db) g.cfg.record_key)) (sym path)
          ∙ ap (λ s. lock_in O (s (V.db_name g.db) g.cfg.record_key)) e
          ∙ ap (λ p. lock_in O (V.stored w₁ p (V.db_name g.db) g.cfg.record_key)) path
          ∙ kept_persisted w₁ same

      after_commit-Meets :
          (r : Result (Unit {0}) O.HeedError × O.World)
          → Committed V txn w₁ r
          → Meets O V g w now_ms (after_commit O g now_ms r)
      unfolding after_commit
      after_commit-Meets (err e, w') (inl kept) = failure-Meets (heed e) w' (old_persisted w' kept)
      after_commit-Meets (err e, w') (inr new) =
          stored-Meets (heed e) w' small due (new_persisted w' new)
      after_commit-Meets (ok _, w') new = record {
        env = refl;
        db = refl;
        cfg = refl;
        stored = new_persisted w' new;
        spec =
            let e = new_persisted w' new in
            (due, omega (arith, e), ap millis_to_duration (omega (arith, e)));
      }

    -- A transaction of the gate, as it started.
    module _ (txn : O.Txn) (w₁ : O.World) (same : V.stored w₁ ≡ V.stored w)
        (path : V.txn_path txn ≡ V.env_path g.env)
        (snapshot : V.seen txn w₁ ≡ V.stored w (V.env_path g.env)) (small : now_ms ≤ u64_max) where
      aborted : persisted O V g (O.abort txn w₁) ≡ persisted O V g w
      aborted = kept_persisted (O.abort txn w₁) (L.abort txn w₁ ∙ same)

      after_put-Meets :
          (bytes : O.Bytes)
          → O.from_bytes bytes ≡ ok (new_record g.cfg now_ms)
          → lock_of O V g w ≤ now_ms
          → (r : Result (Unit {0}) O.HeedError × O.World)
          → Put V (V.db_name g.db) txn g.cfg.record_key bytes w₁ r
          → Meets O V g w now_ms (after_put O g now_ms txn r)
      unfolding after_put
      after_put-Meets bytes decoded due (err e, w') kept =
          failure-Meets (heed e) (O.abort txn w')
            (kept_persisted (O.abort txn w') (L.abort txn w' ∙ kept ∙ same))
      after_put-Meets bytes decoded due (ok _, w') (kept, written) =
          after_commit-Meets txn w' bytes (kept ∙ same) path written decoded small due
            (O.commit txn w') (L.commit txn w')

      after_encode-Meets :
          lock_of O V g w ≤ now_ms
          → (r : Result O.Bytes String) → O.to_bytes (new_record g.cfg now_ms) ≡ r
          → Meets O V g w now_ms (after_encode O g now_ms txn w₁ r)
      unfolding after_encode
      after_encode-Meets due (err e) h = failure-Meets (encode e) (O.abort txn w₁) aborted
      after_encode-Meets due (ok bytes) h =
          after_put-Meets bytes (L.round_trip (new_record g.cfg now_ms) bytes h) due
            (O.put g.db txn g.cfg.record_key bytes w₁) (L.put g.db txn g.cfg.record_key bytes w₁)

      locked_until :
          (found : ℕ)
          → found ≡ persisted O V g w
          → max g.cached_lock_until_ms found ≡ lock_of O V g w
      locked_until found h = ap (max g.cached_lock_until_ms) h

      kept_lock :
          (found : ℕ)
          → found ≡ persisted O V g w
          → max (max g.cached_lock_until_ms found) (persisted O V g (O.abort txn w₁))
            ≡ lock_of O V g w
      kept_lock found h = omega (arith, h, aborted)

      after_read-Meets :
          (r : Result ℕ (Failure O))
          → Read O V g w r
          → Meets O V g w now_ms (after_read O g now_ms txn w₁ r)
      unfolding after_read
      after_read-Meets (err e) h = failure-Meets e (O.abort txn w₁) aborted
      after_read-Meets (ok found) h =
          elim (Bool-cases (ltb now_ms (max g.cached_lock_until_ms found))) [
            | inl locked ↦ rw locked (record {
              env = refl;
              db = refl;
              cfg = refl;
              stored = tt;
              spec = (
                ground (arith, h),
                kept_lock found h,
                omega (arith, ap millis_to_duration (locked_until found h)),
              );
            })
            | inr free ↦
                rw free (
                  after_encode-Meets (ground (arith, h)) (O.to_bytes (new_record g.cfg now_ms))
                    refl)
          ]

    after_begin-Meets :
        now_ms ≤ u64_max
        → (r : Result O.Txn O.HeedError × O.World) → Began V g.env w r
        → Meets O V g w now_ms (after_begin O g now_ms r)
    unfolding after_begin read_lock_until_ms
    after_begin-Meets small (err e, w') kept = record {
      env = refl;
      db = refl;
      cfg = refl;
      stored = tt;
      spec = inl (ap (max g.cached_lock_until_ms) (kept_persisted w' kept));
    }
    after_begin-Meets small (ok txn, w') (same, path, snapshot) =
        after_read-Meets txn w' same path snapshot small (read_lock_until_ms O g txn w') (
          decode_lock-Read O V g w txn w' snapshot (O.get g.db txn g.cfg.record_key w')
            (L.get g.db txn g.cfg.record_key w'))

    acquire_at-Meets : now_ms ≤ u64_max → Meets O V g w now_ms (acquire_at O g now_ms w)
    unfolding acquire_at
    acquire_at-Meets small = elim (Bool-cases (ltb now_ms g.cached_lock_until_ms)) [
      | inl locked ↦ rw locked (record {
        env = refl;
        db = refl;
        cfg = refl;
        stored = tt;
        spec = (ground arith, refl, millis_to_duration_mono (omega arith));
      })
      | inr free ↦ rw free (after_begin-Meets small (O.write_txn g.env w) (L.write_txn g.env w))
    ]

  -- A gate that fails closed is the abstract gate, over a lawful database: every call answers, moves
  -- the lock and keeps its handles and its configuration as the abstract gate allows, whichever of its steps fail, and
  -- what it grants is stored.
  pub try_acquire_open-Meets :
      IsLawful O V
      → (g : DurableOpenGate O) (w : O.World) (now : Duration) → g.cfg.fail_closed ≡ true
      → Meets O V g w (duration_to_millis now) (try_acquire_open O g now w)
  unfolding try_acquire_open
  try_acquire_open-Meets L g w now closed =
      let m =
        acquire_at-Meets L (record g { stats = count_attempt g.stats }) w (duration_to_millis now)
          closed (millis-le now) in
      record { env = m.env; db = m.db; cfg = m.cfg; stored = m.stored; spec = m.spec }
