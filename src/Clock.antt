-- ===== src/Clock.antt =====
-- Go's time package, as far as the program uses it. A `Time` is the number of nanoseconds after the
-- zero Time (year 1, January 1, 00:00 UTC), so `IsZero` is `== 0`; no earlier instant occurs.
-- A time.Location is a record, since the zone data is not in the repository.
use ev_charge_controller.Prelude.{ℕ, ◌+◌, ◌*◌, ◌/◌, ◌%◌, ◌≤◌, ◌<◌, ◌≡◌, arith}

abbrev pub Time : Type 0
Time = ℕ

abbrev pub second : ℕ
second = 1000000000

abbrev pub minute : ℕ
minute = 60 * second

abbrev pub hour : ℕ
hour = 60 * minute

abbrev pub day : ℕ
day = 24 * hour

-- Cut down to the second.
abbrev pub whole_seconds : Time → Time
whole_seconds t = t / second * second

pub record Location : Type 0 where
  -- time.Date(t.Year(), t.Month(), t.Day(), h, m, 0, 0, loc)
  pub date : Time → ℕ → ℕ → Time
  -- t.Hour() and t.Minute() in the location
  pub hour_of : Time → ℕ
  pub minute_of : Time → ℕ

-- The day of `now` has 24 hours in the location: no clock change falls on it.
pub record IsPlainDay (loc : Location) (now : Time) : Type 0 where
  pub midnight_le : loc.date now 0 0 ≤ now
  pub lt_midnight : now < loc.date now 0 0 + day
  pub date_eq : (h m : ℕ) → loc.date now h m ≡ loc.date now 0 0 + (h * hour + m * minute)
  pub hour_lt : loc.hour_of now < 24
  pub minute_lt : loc.minute_of now < 60
  pub clock_le : loc.date now 0 0 + (loc.hour_of now * hour + loc.minute_of now * minute) ≤ now
  pub clock_lt :
      now < loc.date now 0 0 + (loc.hour_of now * hour + loc.minute_of now * minute) + minute

-- UTC, the location that satisfies this on every day.
abbrev pub utc : Location
utc = record {
  date = λ t h m. t / day * day + (h * hour + m * minute);
  hour_of = λ t. t / hour % 24;
  minute_of = λ t. t / minute % 60;
}

pub utc-IsPlainDay : (now : Time) → IsPlainDay utc now
utc-IsPlainDay now = record {
  midnight_le = omega arith;
  lt_midnight = omega arith;
  date_eq = λ h m. omega arith;
  hour_lt = omega arith;
  minute_lt = omega arith;
  clock_le = omega arith;
  clock_lt = omega arith;
}
