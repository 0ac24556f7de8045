-- ===== src/Core/Time.antt =====
-- `core/time.py`: points in time.
use Prim.Native.Nat.{ℕ, ◌+◌, ◌-◌}

-- A UTC datetime, as microseconds since 0001-01-01.
abbrev pub Timestamp : Type 0
Timestamp = ℕ

-- The `tzinfo` of a datetime: none, or so many microseconds east or west of UTC.
pub data Tzinfo : Type 0 where
  naive : Tzinfo
  east : ℕ → Tzinfo
  west : ℕ → Tzinfo

pub record Datetime : Type 0 where
  pub wall : Timestamp
  pub tzinfo : Tzinfo

-- The subtraction stops at 0, where Python raises OverflowError: a time before the year 1.
abbrev pub to_utc : Timestamp → Tzinfo → Timestamp
to_utc wall naive = wall
to_utc wall (east offset) = wall - offset
to_utc wall (west offset) = wall + offset

unfoldable pub ensure_utc : Datetime → Timestamp
ensure_utc value = to_utc value.wall value.tzinfo
