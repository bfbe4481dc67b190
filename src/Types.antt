-- ===== src/Types.antt =====
-- src/types.rs: keys, permits, denials and outcomes. A `Key` is a `u64`.

use shared_rate_limiter.Base.{ℕ, Option}
use shared_rate_limiter.Cost.{Cost}

abbrev pub Key : Type 0
Key = ℕ

-- Times are nanoseconds.
abbrev pub Duration : Type 0
Duration = ℕ

pub data PermitMeta : Type 0 where
  fixed_window : Duration → PermitMeta
  token_bucket : PermitMeta

pub record Permit : Type 0 where
  pub key : Key
  pub cost : Cost
  pub window_start : Duration
  pub issued_at : Duration
  pub deadline : Duration
  pub meta : PermitMeta

pub record Deny : Type 0 where
  pub retry_after : Duration

pub data Scope : Type 0 where
  global key : Scope

pub data Outcome : Type 0 where
  confirmed not_sent sent_no_confirm : Outcome
  rate_limited_feedback : Duration → Scope → Option Key → Outcome
