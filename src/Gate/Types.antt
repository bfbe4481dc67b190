-- ===== src/Gate/Types.antt =====
-- src/durable_open_gate.rs: the configuration, the decisions, the counters, the errors and the record
-- that is stored. A `&'static str` and a `String` are texts.
use Prim.Native.String.{String, ◌++◌ as ◌<>◌}
use shared_rate_limiter.Base.{ℕ, ◌*◌, ◌/◌, min, Bool, true}
use shared_rate_limiter.Word.{u64_max, nanos_per_sec, add_u64}
use shared_rate_limiter.Types.{Duration}

pub record DurableOpenGateConfig : Type 0 where
  pub window : Duration
  pub lmdb_map_size_bytes : ℕ
  pub db_name : String
  pub record_key : String
  pub fail_closed : Bool

abbrev pub default_config : DurableOpenGateConfig
default_config = record {
  window = 30 * 60 * nanos_per_sec;
  lmdb_map_size_bytes = 32 * 1024 * 1024;
  db_name = "open_gate";
  record_key = "global_open_gate";
  fail_closed = true;
}

-- Each constructor has its `lock_until`.
pub data OpenGateDecision : Type 0 where
  allowed : Duration → OpenGateDecision
  blocked : Duration → OpenGateDecision

pub record OpenGateStats : Type 0 where
  pub attempts_total : ℕ
  pub allowed_total : ℕ
  pub blocked_total : ℕ
  pub persist_reads_total : ℕ
  pub persist_writes_total : ℕ
  pub persist_failures_total : ℕ

abbrev pub default_stats : OpenGateStats
default_stats = record {
  attempts_total = 0;
  allowed_total = 0;
  blocked_total = 0;
  persist_reads_total = 0;
  persist_writes_total = 0;
  persist_failures_total = 0;
}

unfoldable pub count_attempt : OpenGateStats → OpenGateStats
count_attempt s = record s { attempts_total = add_u64 s.attempts_total 1 }

unfoldable pub count_allowed : OpenGateStats → OpenGateStats
count_allowed s = record s { allowed_total = add_u64 s.allowed_total 1 }

unfoldable pub count_blocked : OpenGateStats → OpenGateStats
count_blocked s = record s { blocked_total = add_u64 s.blocked_total 1 }

unfoldable pub count_write : OpenGateStats → OpenGateStats
count_write s = record s { persist_writes_total = add_u64 s.persist_writes_total 1 }

unfoldable pub count_read : OpenGateStats → OpenGateStats
count_read s = record s { persist_reads_total = add_u64 s.persist_reads_total 1 }

unfoldable pub count_failure : OpenGateStats → OpenGateStats
count_failure s = record s { persist_failures_total = add_u64 s.persist_failures_total 1 }

-- Over the errors of `std::io` and of heed.
pub data DurableOpenGateError (IoError HeedError : Type 0) : Type 0 where
  invalid_config : String → DurableOpenGateError IoError HeedError
  io : IoError → DurableOpenGateError IoError HeedError
  heed : HeedError → DurableOpenGateError IoError HeedError
  encode : String → DurableOpenGateError IoError HeedError
  decode : String → DurableOpenGateError IoError HeedError
  already_locked : DurableOpenGateError IoError HeedError
  lock_poisoned : DurableOpenGateError IoError HeedError

-- `fmt`, over the texts of the other errors.
unfoldable pub display :
    {IoError HeedError : Type 0}
    → (IoError → String)
    → (HeedError → String)
    → DurableOpenGateError IoError HeedError
    → String
display show_io show_heed (invalid_config msg) = "invalid durable open gate config: " <> msg
display show_io show_heed (io err) = "durable open gate I/O error: " <> show_io err
display show_io show_heed (heed err) = "durable open gate LMDB error: " <> show_heed err
display show_io show_heed (encode err) = "durable open gate encode error: " <> err
display show_io show_heed (decode err) = "durable open gate decode error: " <> err
display show_io show_heed already_locked = "durable open gate already locked"
display show_io show_heed lock_poisoned = "durable open gate lock poisoned"

pub record OpenGateRecordV1 : Type 0 where
  pub version : ℕ
  pub lock_until_ms : ℕ
  pub updated_at_ms : ℕ
  pub window_ms : ℕ

unfoldable pub duration_to_millis : Duration → ℕ
duration_to_millis value = min (value / 1_000_000) u64_max

unfoldable pub millis_to_duration : ℕ → Duration
millis_to_duration value_ms = value_ms * 1_000_000
