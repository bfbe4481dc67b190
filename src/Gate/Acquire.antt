-- ===== src/Gate/Acquire.antt =====
-- src/durable_open_gate.rs: `try_acquire_open` and `persist_error_decision`. Each step but the first
-- takes the answer of the one before it. The result stands before the gate and the system.
use Prim.Native.String.{String}
use shared_rate_limiter.Base.{ℕ, max, if◌then◌else◌, ltb, Result, ok, err}
use shared_rate_limiter.Word.{add_u64}
use shared_rate_limiter.Types.{Duration}
use shared_rate_limiter.Gate.Types.{
  DurableOpenGateConfig, OpenGateDecision, allowed, blocked, heed, encode, OpenGateRecordV1,
  count_attempt, count_allowed, count_blocked, count_read, count_write, count_failure,
  duration_to_millis, millis_to_duration,
}
use shared_rate_limiter.Gate.Outside.{Outside}
use shared_rate_limiter.Gate.Open.{DurableOpenGate, Failure, read_lock_until_ms}

-- The end of the lock that a grant starts.
unfoldable pub lock_end : DurableOpenGateConfig → ℕ → ℕ
unfolding duration_to_millis
lock_end cfg now_ms = add_u64 now_ms (duration_to_millis cfg.window)

unfoldable pub new_record : DurableOpenGateConfig → ℕ → OpenGateRecordV1
unfolding duration_to_millis lock_end
new_record cfg now_ms = record {
  version = 1;
  lock_until_ms = lock_end cfg now_ms;
  updated_at_ms = now_ms;
  window_ms = duration_to_millis cfg.window;
}

module _ (O : Outside) where
  abbrev pub Answer : Type 0
  Answer = Result OpenGateDecision (Failure O) × DurableOpenGate O × O.World

  unfoldable pub persist_error_decision : DurableOpenGate O → Failure O → ℕ → O.World → Answer
  unfolding count_failure count_allowed lock_end millis_to_duration
  persist_error_decision g e now_ms w =
      if g.cfg.fail_closed then (err e, record g { stats = count_failure g.stats }, w) else (
        ok (allowed (millis_to_duration (lock_end g.cfg now_ms))),
        record g {
          cached_lock_until_ms = lock_end g.cfg now_ms;
          stats = count_allowed (count_failure g.stats);
        },
        w,
      )

  unfoldable pub after_commit :
      DurableOpenGate O → ℕ → Result (Unit {0}) O.HeedError × O.World → Answer
  unfolding persist_error_decision lock_end count_read count_write count_allowed millis_to_duration
  after_commit g now_ms (err e, w) = persist_error_decision g (heed e) now_ms w
  after_commit g now_ms (ok _, w) = (
    ok (allowed (millis_to_duration (lock_end g.cfg now_ms))),
    record g {
      cached_lock_until_ms = lock_end g.cfg now_ms;
      stats = count_allowed (count_write (count_read g.stats));
    },
    w,
  )

  unfoldable pub after_put :
      DurableOpenGate O → ℕ → O.Txn → Result (Unit {0}) O.HeedError × O.World → Answer
  unfolding persist_error_decision after_commit
  after_put g now_ms txn (err e, w) = persist_error_decision g (heed e) now_ms (O.abort txn w)
  after_put g now_ms txn (ok _, w) = after_commit g now_ms (O.commit txn w)

  unfoldable pub after_encode :
      DurableOpenGate O → ℕ → O.Txn → O.World → Result O.Bytes String → Answer
  unfolding persist_error_decision after_put
  after_encode g now_ms txn w (err e) = persist_error_decision g (encode e) now_ms (O.abort txn w)
  after_encode g now_ms txn w (ok bytes) =
      after_put g now_ms txn (O.put g.db txn g.cfg.record_key bytes w)

  unfoldable pub after_read :
      DurableOpenGate O → ℕ → O.Txn → O.World → Result ℕ (Failure O) → Answer
  unfolding persist_error_decision after_encode new_record count_read count_blocked
      millis_to_duration
  after_read g now_ms txn w (err e) = persist_error_decision g e now_ms (O.abort txn w)
  after_read g now_ms txn w (ok persisted) =
      let effective = max g.cached_lock_until_ms persisted in
      if ltb now_ms effective
      then (
        ok (blocked (millis_to_duration effective)),
        record g { cached_lock_until_ms = effective; stats = count_blocked (count_read g.stats) },
        O.abort txn w,
      )
      else after_encode g now_ms txn w (O.to_bytes (new_record g.cfg now_ms))

  -- A transaction that does not start ends the call by `?`.
  unfoldable pub after_begin : DurableOpenGate O → ℕ → Result O.Txn O.HeedError × O.World → Answer
  unfolding after_read read_lock_until_ms
  after_begin g now_ms (err e, w) = (err (heed e), g, w)
  after_begin g now_ms (ok txn, w) = after_read g now_ms txn w (read_lock_until_ms O g txn w)

  -- `try_acquire_open` behind its first lines.
  unfoldable pub acquire_at : DurableOpenGate O → ℕ → O.World → Answer
  unfolding after_begin count_blocked millis_to_duration
  acquire_at g now_ms w =
      if ltb now_ms g.cached_lock_until_ms
      then (
        ok (blocked (millis_to_duration g.cached_lock_until_ms)),
        record g { stats = count_blocked g.stats },
        w,
      )
      else after_begin g now_ms (O.write_txn g.env w)

  unfoldable pub try_acquire_open : DurableOpenGate O → Duration → O.World → Answer
  unfolding count_attempt duration_to_millis acquire_at
  try_acquire_open g now w =
      acquire_at (record g { stats = count_attempt g.stats }) (duration_to_millis now) w
