-- ===== src/FixedWindow/Alignment.antt =====
-- Where the windows of src/bucket.rs start, and when one is left for the next.
use native.Mathlib.Nat.{div-mul-le_self, lt-div-mul-add, div-eq_of_lt-le, mul-mod_left}
use shared_rate_limiter.Base.{ℕ, ◌+◌, ◌*◌, ◌/◌, ◌%◌, ◌≤◌, ◌<◌, ◌≡◌, arith, ap, ◌≢◌}
use shared_rate_limiter.Word.{duration_max, add_duration}
use shared_rate_limiter.Types.{Duration}
use shared_rate_limiter.FixedWindow.{FixedWindowState, window_start_for, new, maybe_reset_window}

-- The detour over seconds and nanoseconds loses nothing.
pub window_start_for_lem :
    (now window : Duration)
    → now ≤ duration_max
    → window_start_for now window ≡ (now / window) * window
unfolding window_start_for
window_start_for_lem now window h = omega (arith, div-mul-le_self now window)

-- For a window that is not 0, and times that a `Duration` holds: the window of a time starts at a multiple of the window's length, holds the time, and is the same
-- for each time `t` in it.
pub window_start_for_aligned :
    (now window t : Duration)
    → 0 < window
    → now ≤ duration_max
    → t ≤ duration_max
    → window_start_for now window ≤ t
    → t < window_start_for now window + window
    → let start = window_start_for now window in
      (start % window ≡ 0)
      × (start ≤ now)
      × (now < start + window)
      × (window_start_for t window ≡ start)
window_start_for_aligned now window t pos h g from to =
    let q = now / window in
    let from' : q * window ≤ t = rw (window_start_for_lem now window h) at from in
    let to' : t < q * window + window = rw (window_start_for_lem now window h) at to in
    let same : t / window * window ≡ q * window =
      ap (λ (n : ℕ). n * window) (div-eq_of_lt-le window from' (grind arith)) in
    rw (window_start_for_lem now window h, window_start_for_lem t window g)
      (mul-mod_left q window, div-mul-le_self now window, lt-div-mul-add pos, same)

-- The window is left behind only at its end, and only with no reservation outstanding; then the
-- accounting starts anew in the window of the time.
pub maybe_reset_window_lem :
    (s : FixedWindowState) (now window : Duration)
    → let s' = maybe_reset_window s now window in
      (s.reserved ≢ 0 → s' ≡ s)
      × (now < add_duration s.window_start window → s' ≡ s)
      × (s.reserved ≡ 0 → add_duration s.window_start window ≤ now → s' ≡ new now window)
unfolding maybe_reset_window new
maybe_reset_window_lem s now window = (λ h. ground arith, λ h. ground arith, λ h g. ground arith)

-- The window of a time holds it.
pub window_start_for_holds :
    (now window : Duration)
    → 0 < window
    → now ≤ duration_max
    → (window_start_for now window ≤ now) × (now < window_start_for now window + window)
window_start_for_holds now window pos h =
    rw (window_start_for_lem now window h) (div-mul-le_self now window, lt-div-mul-add pos)
