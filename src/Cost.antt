-- ===== src/Cost.antt =====
-- `Cost` of src/types.rs: the weight of one operation, a `NonZeroU32`.
use shared_rate_limiter.Base.{ℕ, ◌<◌, ◌≤◌, Option, none, some, if◌then◌else◌, ◌==◌}
use shared_rate_limiter.Word.{u32_max}

pub record Cost : Type 0 where
  pub raw : ℕ

abbrev pub one : Cost
one = record { raw = 1 }

-- `None` for 0.
unfoldable pub new : ℕ → Option Cost
new raw = if raw == 0 then none else some (record { raw = raw })

abbrev pub get : Cost → ℕ
get c = c.raw

-- What `NonZeroU32` guarantees.
pub record IsCost (c : Cost) : Type 0 where
  pub nonzero : 0 < c.raw
  pub fits : c.raw ≤ u32_max
