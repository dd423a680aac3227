-- ===== src/Runtime.antt =====
-- What the services take from the Python and Django libraries: the texts of identifiers, amounts,
-- dates and times, the parsers of two of these, and the identifiers and the time that one call
-- draws. A time is a number of microseconds in UTC, a date is a number of days on the same line,
-- an identifier (UUID) is a number, and an amount (`Decimal` with two places) is a number of cents.
use risk_core.Prelude.{Bool, ℕ, ◌/◌, ◌≡◌, Option, some, Text, is_nonempty, true}
use risk_core.Prelude.Int.{ℤ}

pub record Runtime : Type 0 where
  pub uuid_str : ℕ → Text  -- str(uuid)
  pub parse_uuid : Text → Option ℕ  -- the text as a UUIDField reads it
  pub decimal_str : ℤ → Text  -- str(decimal)
  pub datetime_iso : ℕ → Text  -- datetime.isoformat()
  pub date_iso : ℕ → Text  -- date.isoformat()
  pub parse_date : Text → Option ℕ  -- the text as a DateField reads it
  pub parse_datetime : Text → Option ℕ  -- django.utils.dateparse.parse_datetime

-- The documented behaviour that some theorems rely on.
pub record IsFaithful (rt : Runtime) : Type 0 where
  pub uuid_back : (u : ℕ) → rt.parse_uuid (rt.uuid_str u) ≡ some u
  pub uuid_nonempty : (u : ℕ) → is_nonempty (rt.uuid_str u) ≡ true
  pub datetime_back : (t : ℕ) → rt.parse_datetime (rt.datetime_iso t) ≡ some t

-- What one call draws: its k-th `uuid.uuid4()`, and `timezone.now()`; and whether the database takes
-- the k-th of the statements that follow the first one of its transaction, or raises.
pub record Draw : Type 0 where
  pub uuid : ℕ → ℕ
  pub now : ℕ
  pub stored : ℕ → Bool

-- The database takes all of them.
abbrev pub TakesAll : Draw → Type 0
TakesAll draw = (k : ℕ) → draw.stored k ≡ true

-- `t.date()`
abbrev pub date_of : ℕ → ℕ
date_of t = t / 86_400_000_000
