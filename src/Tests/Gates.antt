-- ===== src/Tests/Gates.antt =====
-- src/durable_open_gate.rs on the database in memory.
use Prim.Native.String.{String}
use shared_rate_limiter.Base.{
  ℕ, ap, some, none, ◌⊎◌, ◌*◌, List, ◌≤◌, ◌≡◌, refl, arith, false, ok, err, [], ◌∷◌,
}
use shared_rate_limiter.Types.{Duration}
use shared_rate_limiter.Gate.Types.{
  DurableOpenGateConfig, default_config, allowed, blocked, io, already_locked, count_read,
  duration_to_millis, millis_to_duration,
}
use shared_rate_limiter.Gate.Outside.{Outside}
use shared_rate_limiter.Gate.Open.{
  DurableOpenGate, drop_gate, open_gate, acquire_file_lock, lock_opened, lock_file, with_lock,
  with_dir, with_env, create_db, created_db, committed_db, with_db, new_gate, load_lock_until_ms,
  load_in, loaded, read_lock_until_ms, decode_lock,
}
use shared_rate_limiter.Gate.Restore.{IsAt, Opens, open_gate-Opens}
use shared_rate_limiter.Gate.Abstract.{Meets}
use shared_rate_limiter.Gate.Refinement.{try_acquire_open-Meets}
use shared_rate_limiter.Gate.Acquire.{
  lock_end, try_acquire_open, acquire_at, after_begin, after_read, after_encode, after_put,
  after_commit,
}
use shared_rate_limiter.Gate.Spacing.{run}
use shared_rate_limiter.Gate.Shared.{acquired, would_block, try_acquire_open_fail_closed}
use shared_rate_limiter.Gate.Sharing.{run_shared, shared_apart}
use shared_rate_limiter.Gate.Health.{grants_due}
use shared_rate_limiter.Gate.Counters.{IsConsistent, answers, run_counts}
use shared_rate_limiter.Gate.Faults.{Decides, fail_open-Decides, short_window_unblocked}
use shared_rate_limiter.Gate.Restart.{restart_blocked}
use shared_rate_limiter.Gate.Exclusion.{session, second_refused}
use shared_rate_limiter.Tests.Memory.{
  locks, memory-IsExclusive, Memory, empty, memory, view, memory-IsLawful, memory-IsHealthy,
}

abbrev cfg : DurableOpenGateConfig
cfg = default_config

abbrev gate : DurableOpenGate memory
gate = record {
  file_lock = ("gate.open_gate.lock", 0);
  env = "gate";
  db = "open_gate";
  cfg = cfg;
  cached_lock_until_ms = 0;
  stats = record {
    attempts_total = 0;
    allowed_total = 0;
    blocked_total = 0;
    persist_reads_total = 1;
    persist_writes_total = 0;
    persist_failures_total = 0;
  };
}

gate-IsAt : IsAt memory view "gate" cfg gate
gate-IsAt = record { env = refl; db = refl; cfg = refl }

abbrev second : Duration
second = 1000000000

-- Half an hour in milliseconds.
abbrev end_ms : ℕ
end_ms = 1801000

grants_first : (try_acquire_open memory gate second empty).0 ≡ ok (allowed (1801 * second))
unfolding try_acquire_open acquire_at after_begin after_read after_encode after_put after_commit
    read_lock_until_ms decode_lock lock_end duration_to_millis millis_to_duration
grants_first = refl

open_gate-Opens_example : Opens memory view "gate" cfg empty (open_gate memory "gate" cfg empty)
open_gate-Opens_example = open_gate-Opens memory view memory-IsLawful "gate" cfg refl empty

opens : (open_gate memory "gate" cfg empty).0 ≡ ok gate
unfolding open_gate acquire_file_lock lock_opened lock_file with_lock with_dir with_env create_db
    created_db committed_db with_db new_gate load_lock_until_ms load_in loaded read_lock_until_ms
    decode_lock count_read
opens = refl

abbrev held_open : Memory
held_open = (open_gate memory "gate" cfg empty).1

opens_held : open_gate memory "gate" cfg empty ≡ (ok gate, held_open)
opens_held = ap (λ r. (r, held_open)) opens

try_acquire_open-Meets_example :
    Meets memory view gate empty 1000 (try_acquire_open memory gate second empty)
unfolding duration_to_millis
try_acquire_open-Meets_example =
    try_acquire_open-Meets memory view memory-IsLawful gate empty second refl

-- A blocked call between two grants.
grants_again :
    (try_acquire_open memory
      (run memory (try_acquire_open memory gate second empty).1 ((2 * second, empty) ∷ []))
      (1801 * second)
      empty).0
    ≡ ok (allowed (3601 * second))
unfolding run try_acquire_open acquire_at after_begin after_read after_encode after_put after_commit
    read_lock_until_ms decode_lock lock_end duration_to_millis millis_to_duration
grants_again = refl

abbrev left : Memory
left =
    drop_gate memory (try_acquire_open memory gate second empty).1
      (try_acquire_open memory gate second empty).2

abbrev reopened : DurableOpenGate memory
reopened = record gate { cached_lock_until_ms = 1801000 }

opens_again : open_gate memory "gate" cfg left ≡ (ok reopened, (open_gate memory "gate" cfg left).1)
unfolding drop_gate try_acquire_open acquire_at after_begin after_read after_encode after_put
    after_commit read_lock_until_ms decode_lock lock_end duration_to_millis millis_to_duration
    open_gate acquire_file_lock lock_opened lock_file with_lock with_dir with_env create_db
    created_db committed_db with_db new_gate load_lock_until_ms load_in loaded count_read
opens_again = refl

restart_blocked_example :
    ((try_acquire_open memory
        (run memory reopened ((3 * second, empty) ∷ []))
        (1800 * second)
        empty).0
      ≡ ok (
          blocked (
            millis_to_duration
              (run memory reopened ((3 * second, empty) ∷ [])).cached_lock_until_ms)))
    × (1801 * second
        ≤ millis_to_duration (run memory reopened ((3 * second, empty) ∷ [])).cached_lock_until_ms)
unfolding lock_end duration_to_millis
restart_blocked_example =
    restart_blocked memory view memory-IsLawful "gate" cfg refl gate gate-IsAt second
      (1800 * second) empty grants_first reopened (open_gate memory "gate" cfg left).1 opens_again
      ((3 * second, empty) ∷ []) empty (omega arith)

gate-IsConsistent : IsConsistent gate.stats
gate-IsConsistent = record {
  decided = omega arith;
  backed = omega arith;
  written = omega arith;
  failures = omega arith;
}

abbrev calls : List (Duration × Memory)
calls = (second, empty) ∷ (2 * second, empty) ∷ []

run_counts_example :
    IsConsistent (run memory gate calls).stats
    × ((run memory gate calls).stats.attempts_total ≡ 2)
    × ((run memory gate calls).stats.allowed_total ≡ 1)
    × ((run memory gate calls).stats.blocked_total ≡ 1)
unfolding answers try_acquire_open acquire_at after_begin after_read after_encode after_put
    after_commit read_lock_until_ms decode_lock lock_end duration_to_millis millis_to_duration
run_counts_example = run_counts memory gate calls (omega arith) gate-IsConsistent

-- A database that starts no write transaction, under a gate that does not fail closed.
abbrev broken : Outside
broken = record memory { write_txn = λ env w. (err tt, w) }

abbrev lenient : DurableOpenGate broken
lenient = record {
  file_lock = ("gate.open_gate.lock", 0);
  env = "gate";
  db = "open_gate";
  cfg = record cfg { fail_closed = false };
  cached_lock_until_ms = 0;
  stats = gate.stats;
}

fail_open-Decides_example :
    Decides broken lenient empty (try_acquire_open broken lenient second empty)
fail_open-Decides_example = fail_open-Decides broken lenient second empty refl

abbrev brief : DurableOpenGate memory
brief = record gate { cfg = record cfg { window = 500_000 } }

grants_briefly : (try_acquire_open memory brief second empty).0 ≡ ok (allowed second)
unfolding try_acquire_open acquire_at after_begin after_read after_encode after_put after_commit
    read_lock_until_ms decode_lock lock_end duration_to_millis millis_to_duration
grants_briefly = refl

short_window_unblocked_example : ¬ (
    (try_acquire_open memory
      (try_acquire_open memory brief second empty).1
      second
      (try_acquire_open memory brief second empty).2).0
    ≡ ok (blocked second))
short_window_unblocked_example =
    short_window_unblocked memory view memory-IsLawful brief second empty refl (omega arith)
      grants_briefly

shared_apart_example :
    (lock_end cfg (duration_to_millis second) ≤ duration_to_millis (1801 * second))
    × (1801 * second ≤ 3601 * second)
unfolding try_acquire_open_fail_closed run_shared run
shared_apart_example =
    shared_apart memory gate acquired acquired second (1801 * second) empty empty
      ((acquired, 2 * second, empty) ∷ (would_block, 1900 * second, empty) ∷ []) grants_first
      grants_again

grants_due_example :
    (try_acquire_open memory gate second empty).0
    ≡ ok (allowed (millis_to_duration (lock_end cfg (duration_to_millis second))))
grants_due_example =
    grants_due memory view memory-IsLawful memory-IsHealthy gate second empty refl (omega arith)

-- A second `open` while the gate is there.
second_refused_example :
    let p : String = "gate.open_gate.lock" in
    let s = session memory gate (second ∷ 2 * second ∷ []) held_open in
    let again = open_gate memory "gate" cfg s.1 in
    ((again.0 ≡ err already_locked)
      ⊎ ((e : Unit {0}) × ((memory.open_file p s.1).0 ≡ err e) × (again.0 ≡ err (io e))))
    × (locks.holder again.1 p ≡ some (p, 0))
    × (locks.holder (drop_gate memory s.0 again.1) p ≡ none)
second_refused_example =
    second_refused memory locks memory-IsExclusive "gate" cfg cfg empty held_open gate
      (second ∷ 2 * second ∷ []) opens_held
