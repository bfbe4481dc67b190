-- ===== src/Gate/Counters.antt =====
-- src/durable_open_gate.rs: what a call counts in `OpenGateStats`, whatever the database answers.
use Prim.Native.String.{String}
use shared_rate_limiter.Base.{
  ℕ, suc, length, total, ◌⊎◌, inl, inr, ◌+◌, ◌≤◌, ◌<◌, ◌≡◌, refl, ◌∙◌, max, ltb, Result, ok, err,
  List, [], ◌∷◌, arith, if-cases,
}
use shared_rate_limiter.Word.{u64_max, add_u64}
use shared_rate_limiter.Types.{Duration}
use shared_rate_limiter.Gate.Types.{
  OpenGateDecision, allowed, blocked, OpenGateStats, heed, encode, count_attempt, count_allowed,
  count_blocked, count_write, count_read, count_failure, duration_to_millis,
}
use shared_rate_limiter.Gate.Outside.{Outside}
use shared_rate_limiter.Gate.Open.{DurableOpenGate, Failure, read_lock_until_ms}
use shared_rate_limiter.Gate.Acquire.{
  new_record, Answer, persist_error_decision, after_commit, after_put, after_encode, after_read,
  after_begin, acquire_at, try_acquire_open,
}
use shared_rate_limiter.Gate.Spacing.{run}

-- The counters before and behind the steps of a call, of whose result they speak.
abbrev pub Tally : {E : Type 0} → Result OpenGateDecision E → OpenGateStats → OpenGateStats → Type 0
Tally (ok (allowed until)) s s' =
    (s'.allowed_total ≡ add_u64 s.allowed_total 1)
    × (s'.blocked_total ≡ s.blocked_total)
    × (((s'.persist_writes_total ≡ add_u64 s.persist_writes_total 1)
          × (s'.persist_failures_total ≡ s.persist_failures_total))
        ⊎ ((s'.persist_writes_total ≡ s.persist_writes_total)
            × (s'.persist_failures_total ≡ add_u64 s.persist_failures_total 1)))
Tally (ok (blocked until)) s s' =
    (s'.allowed_total ≡ s.allowed_total)
    × (s'.blocked_total ≡ add_u64 s.blocked_total 1)
    × (s'.persist_writes_total ≡ s.persist_writes_total)
    × (s'.persist_failures_total ≡ s.persist_failures_total)
Tally (err e) s s' =
    (s'.allowed_total ≡ s.allowed_total)
    × (s'.blocked_total ≡ s.blocked_total)
    × (s'.persist_writes_total ≡ s.persist_writes_total)
    × ((s'.persist_failures_total ≡ s.persist_failures_total)
        ⊎ (s'.persist_failures_total ≡ add_u64 s.persist_failures_total 1))

-- Each attempt has at most one decision, each grant is a write or a failure that was let through, and
-- each failure is one of an attempt or of the first read.
pub record IsConsistent (s : OpenGateStats) : Type 0 where
  pub decided : s.allowed_total + s.blocked_total ≤ s.attempts_total
  pub backed : s.allowed_total ≤ s.persist_writes_total + s.persist_failures_total
  pub written : s.persist_writes_total ≤ s.allowed_total
  pub failures : s.persist_failures_total ≤ suc s.attempts_total

module _ (O : Outside) where
  record Tallied (s : OpenGateStats) (a : Answer O) : Type 0 where
    same : a.1.stats.attempts_total ≡ s.attempts_total
    tally : Tally a.0 s a.1.stats

  module _ (g : DurableOpenGate O) (now_ms : ℕ) where
    persist_error_decision-Tallied :
        (e : Failure O) (w : O.World) → Tallied g.stats (persist_error_decision O g e now_ms w)
    unfolding persist_error_decision count_failure count_allowed
    persist_error_decision-Tallied e w =
        if-cases {A = Answer O} (Tallied g.stats) g.cfg.fail_closed _ _
          (record { same = refl; tally = (refl, refl, refl, inr refl) })
          (record { same = refl; tally = (refl, refl, inr (refl, refl)) })

    after_commit-Tallied :
        (r : Result (Unit {0}) O.HeedError × O.World) → Tallied g.stats (after_commit O g now_ms r)
    unfolding after_commit count_allowed count_write count_read
    after_commit-Tallied (err e, w) = persist_error_decision-Tallied (heed e) w
    after_commit-Tallied (ok _, w) = record { same = refl; tally = (refl, refl, inl (refl, refl)) }

    after_put-Tallied :
        (txn : O.Txn) (r : Result (Unit {0}) O.HeedError × O.World)
        → Tallied g.stats (after_put O g now_ms txn r)
    unfolding after_put
    after_put-Tallied txn (err e, w) = persist_error_decision-Tallied (heed e) (O.abort txn w)
    after_put-Tallied txn (ok _, w) = after_commit-Tallied (O.commit txn w)

    after_encode-Tallied :
        (txn : O.Txn) (w : O.World) (r : Result O.Bytes String)
        → Tallied g.stats (after_encode O g now_ms txn w r)
    unfolding after_encode
    after_encode-Tallied txn w (err e) = persist_error_decision-Tallied (encode e) (O.abort txn w)
    after_encode-Tallied txn w (ok bytes) =
        after_put-Tallied txn (O.put g.db txn g.cfg.record_key bytes w)

    after_read-Tallied :
        (txn : O.Txn) (w : O.World) (r : Result ℕ (Failure O))
        → Tallied g.stats (after_read O g now_ms txn w r)
    unfolding after_read count_blocked count_read
    after_read-Tallied txn w (err e) = persist_error_decision-Tallied e (O.abort txn w)
    after_read-Tallied txn w (ok persisted) =
        if-cases {A = Answer O} (Tallied g.stats)
          (ltb now_ms (max g.cached_lock_until_ms persisted)) _ _
          (record { same = refl; tally = (refl, refl, refl, refl) })
          (after_encode-Tallied txn w (O.to_bytes (new_record g.cfg now_ms)))

    after_begin-Tallied :
        (r : Result O.Txn O.HeedError × O.World) → Tallied g.stats (after_begin O g now_ms r)
    unfolding after_begin
    after_begin-Tallied (err e, w) = record { same = refl; tally = (refl, refl, refl, inl refl) }
    after_begin-Tallied (ok txn, w) = after_read-Tallied txn w (read_lock_until_ms O g txn w)

    acquire_at-Tallied : (w : O.World) → Tallied g.stats (acquire_at O g now_ms w)
    unfolding acquire_at count_blocked
    acquire_at-Tallied w =
        if-cases {A = Answer O} (Tallied g.stats) (ltb now_ms g.cached_lock_until_ms) _ _
          (record { same = refl; tally = (refl, refl, refl, refl) })
          (after_begin-Tallied (O.write_txn g.env w))

-- The grants and the refusals among some answers.
abbrev pub grants : {E : Type 0} → Result OpenGateDecision E → ℕ
grants (ok (allowed until)) = 1
grants _ = 0

abbrev pub refusals : {E : Type 0} → Result OpenGateDecision E → ℕ
refusals (ok (blocked until)) = 1
refusals _ = 0

Tally-counts :
    {E : Type 0} (r : Result OpenGateDecision E) (s s' : OpenGateStats)
    → s.attempts_total < u64_max
    → IsConsistent s
    → s'.attempts_total ≡ suc s.attempts_total
    → Tally r (count_attempt s) s'
    → IsConsistent s'
      × (s'.allowed_total ≡ s.allowed_total + grants r)
      × (s'.blocked_total ≡ s.blocked_total + refusals r)
unfolding count_attempt
Tally-counts (ok (allowed until)) s s' room c next (a, b, inl (w, f)) =
    ground (arith, c.decided, c.backed, c.written, c.failures)
Tally-counts (ok (allowed until)) s s' room c next (a, b, inr (w, f)) =
    ground (arith, c.decided, c.backed, c.written, c.failures)
Tally-counts (ok (blocked until)) s s' room c next (a, b, w, f) =
    ground (arith, c.decided, c.backed, c.written, c.failures)
Tally-counts (err e) s s' room c next (a, b, w, inl f) =
    ground (arith, c.decided, c.backed, c.written, c.failures)
Tally-counts (err e) s s' room c next (a, b, w, inr f) =
    ground (arith, c.decided, c.backed, c.written, c.failures)

module _ (O : Outside) where
  -- The answers to the calls of `run`, in their order.
  unfoldable pub answers :
      DurableOpenGate O → List (Duration × O.World) → List (Result OpenGateDecision (Failure O))
  unfolding try_acquire_open
  answers g [] = []
  answers g ((now, w) ∷ calls) = let a = try_acquire_open O g now w in a.0 ∷ answers a.1 calls

  try_acquire_open-counts :
      (g : DurableOpenGate O) (now : Duration) (w : O.World)
      → g.stats.attempts_total < u64_max
      → IsConsistent g.stats
      → let a = try_acquire_open O g now w in
        (a.1.stats.attempts_total ≡ suc g.stats.attempts_total)
        × IsConsistent a.1.stats
        × (a.1.stats.allowed_total ≡ g.stats.allowed_total + grants a.0)
        × (a.1.stats.blocked_total ≡ g.stats.blocked_total + refusals a.0)
  unfolding try_acquire_open count_attempt
  try_acquire_open-counts g now w room c =
      let t =
        acquire_at-Tallied O (record g { stats = count_attempt g.stats }) (duration_to_millis now)
          w in
      let next : (try_acquire_open O g now w).1.stats.attempts_total ≡ suc g.stats.attempts_total =
        t.same ∙ omega (arith, room) in
      let (kept, allows, blocks) =
        Tally-counts (try_acquire_open O g now w).0 g.stats (try_acquire_open O g now w).1.stats
          room c next t.tally in
      (next, kept, allows, blocks)

  -- The counters of a gate whose counters are consistent stay so over any calls, whatever the database
  -- answers, where the attempts fit a u64: and they have counted each attempt, each grant and each
  -- refusal.
  pub run_counts :
      (g : DurableOpenGate O) (calls : List (Duration × O.World))
      → g.stats.attempts_total + length calls ≤ u64_max
      → IsConsistent g.stats
      → IsConsistent (run O g calls).stats
        × ((run O g calls).stats.attempts_total ≡ g.stats.attempts_total + length calls)
        × ((run O g calls).stats.allowed_total
            ≡ g.stats.allowed_total + total grants (answers g calls))
        × ((run O g calls).stats.blocked_total
            ≡ g.stats.blocked_total + total refusals (answers g calls))
  unfolding run answers
  run_counts g [] room c = (c, omega arith, omega arith, omega arith)
  run_counts g ((now, w) ∷ calls) room c =
      let a = try_acquire_open O g now w in
      let (next, kept, allows, blocks) = try_acquire_open-counts g now w (omega (arith, room)) c in
      let (kept', attempts, allows', blocks') =
        run_counts a.1 calls (omega (arith, room, next)) kept in
      (
        kept',
        omega (arith, next, attempts),
        omega (arith, allows, allows'),
        omega (arith, blocks, blocks'),
      )
