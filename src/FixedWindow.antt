-- ===== src/FixedWindow.antt =====
-- `FixedWindowState` of src/bucket.rs: the accounting of one window. Windows are aligned to the
-- multiples of their length. `window_start_for` divides by the window, which no configuration that
-- the constructors give has at 0.
pub mod Alignment
use shared_rate_limiter.Base.{ℕ, ◌+◌, ◌-◌, ◌/◌, ◌%◌, ◌*◌, Bool, not, if◌then◌else◌, leb, ◌==◌}
use shared_rate_limiter.Word.{u64_max, nanos_per_sec, add_duration}
use shared_rate_limiter.Types.{Duration}

pub record FixedWindowState : Type 0 where
  pub window_start : Duration
  pub reserved : ℕ
  pub spent : ℕ

unfoldable pub window_start_for : Duration → Duration → Duration
window_start_for now window =
    let start = (now / window) * window in
    ((start / nanos_per_sec) % (u64_max + 1)) * nanos_per_sec + start % nanos_per_sec

unfoldable pub new : Duration → Duration → FixedWindowState
new now window = record { window_start = window_start_for now window; reserved = 0; spent = 0 }

unfoldable pub has_outstanding : FixedWindowState → Bool
has_outstanding s = not (s.reserved == 0)

unfoldable pub maybe_reset_window : FixedWindowState → Duration → Duration → FixedWindowState
maybe_reset_window s now window =
    if not (s.reserved == 0)
    then s
    else if leb (add_duration s.window_start window) now
    then record { window_start = window_start_for now window; spent = 0; reserved = 0 }
    else s

unfoldable pub retry_after_for_window : FixedWindowState → Duration → Duration → Duration
retry_after_for_window s now window = add_duration s.window_start window - now
