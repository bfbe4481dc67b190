-- ===== src/Clock.antt =====
-- src/clock.rs: the trait `Clock`, as a record of its method, and `ManualClock`.
pub mod System
use shared_rate_limiter.Base.{◌≤◌, ◌≡◌, arith}
use shared_rate_limiter.Word.{duration_max, add_duration}
use shared_rate_limiter.Types.{Duration}

pub record Clock (C : Type 0) : Type 0 where
  pub now : C → Duration

pub record ManualClock : Type 0 where
  pub time : Duration

unfoldable pub new : Duration → ManualClock
new now = record { time = now }

unfoldable pub advance : ManualClock → Duration → ManualClock
advance c delta = record c { time = add_duration c.time delta }

unfoldable pub set : ManualClock → Duration → ManualClock
set c now = record c { time = now }

unfoldable pub now : ManualClock → Duration
now c = c.time

abbrev manual : Clock ManualClock
manual = record { now = now }

-- Advances add up, in any grouping, up to the largest `Duration`; and time does not go back.
pub advance-advance :
    (c : ManualClock) (d e : Duration)
    → c.time ≤ duration_max
    → (advance (advance c d) e ≡ advance c (add_duration d e)) × (now c ≤ now (advance c d))
unfolding advance now
advance-advance c d e h = ground arith
