-- ===== src/Clock/System.antt =====
-- `SystemClock` of src/clock.rs. `std::time::Instant` is a parameter: `Moment` is what the operating
-- system's clock reads from.
use shared_rate_limiter.Types.{Duration}
use shared_rate_limiter.Clock.{Clock}

-- `Instant::now` and `Instant::elapsed`.
pub record InstantApi (Moment Instant : Type 0) : Type 0 where
  pub now : Moment → Instant
  pub elapsed : Instant → Moment → Duration

pub record SystemClock (Instant : Type 0) : Type 0 where
  pub start : Instant

module _ {Moment Instant : Type 0} (api : InstantApi Moment Instant) where
  unfoldable new : Moment → SystemClock Instant
  new moment = record { start = api.now moment }

  -- `Default`.
  unfoldable default : Moment → SystemClock Instant
  unfolding new
  default = new

  unfoldable now : SystemClock Instant → Moment → Duration
  now c moment = api.elapsed c.start moment

  -- The clock at a moment.
  abbrev system : Moment → Clock (SystemClock Instant)
  system moment = record { now = λ c. now c moment }
