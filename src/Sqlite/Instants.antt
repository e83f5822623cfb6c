-- ===== src/Sqlite/Instants.antt =====
-- The instants that the store keeps as text and compares as text. A `Date` is a count of milliseconds.
-- Two texts are written: `toISOString()` with three digits of a second's fraction, and the `recorded_at`
-- of an event with six, the last three zero. Within the years 0000 to 9999 SQLite orders these texts by the
-- millisecond, and at one millisecond the six digits come first ("0" is below "Z"). An `Instant`
-- is a text's place in that order.
use onyx_ifem.Prelude.{ℕ, ◌+◌, ◌*◌, ltb}
use onyx_ifem.Contracts.Errors.{Result, failure, throw_if}

abbrev pub Instant : Type 0
Instant = ℕ

-- `date.toISOString()`
abbrev pub iso : ℕ → Instant
iso milliseconds = 2 * milliseconds + 1

-- `utcInstant(date)`, the text of `recorded_at`.
abbrev pub recorded : ℕ → Instant
recorded milliseconds = 2 * milliseconds

-- The last time of a `Date`. One that is computed beyond it is an Invalid Date; those that a clock gives are
-- not.
abbrev pub max_time : ℕ
max_time = 8640000000000000

-- `toISOString()` throws a RangeError on an Invalid Date.
abbrev pub check_date : ℕ → Result (Unit {0})
check_date milliseconds = throw_if (ltb max_time milliseconds) (failure "Invalid time value")
