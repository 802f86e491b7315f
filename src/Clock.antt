-- ===== src/Clock.antt =====
-- The calendar of src/exom.rs: the date and time of a number of seconds since 1970. A year is an
-- `i32`: where the next year is out of its range there is no result (the addition overflows).
pub mod Calendar
pub mod Gregorian
mod Tests
use mathlib.Core.Option
use ray_exomem.Prelude.{
  ℕ, zero, suc, ◌+◌, ◌-◌, ◌*◌, ◌/◌, ◌%◌, Bool, true, false, not, ◌&&◌, ◌||◌, Option, none, some,
  List, [], ◌∷◌, ◌==◌, ltb, if◌then◌else◌,
}

unfoldable pub is_leap : ℕ → Bool
is_leap y = (y % 4 == 0 && not (y % 100 == 0)) || y % 400 == 0

abbrev pub year_len : ℕ → ℕ
year_len y = if is_leap y then 366 else 365

abbrev pub i32_max : ℕ
i32_max = 2147483647

-- The loop over the years, which gives the year and the days that are left. A round takes a day or
-- more, so that the days are fuel enough.
unfoldable pub year_loop : ℕ → (y days : ℕ) → Option (ℕ × ℕ)
year_loop zero y days = some (y, days)
year_loop (suc fuel) y days = elim (ltb days (year_len y)) [
  | true ↦ some (y, days)
  | false ↦ elim (ltb y i32_max) [
    | true ↦ year_loop fuel (y + 1) (days - year_len y)
    | false ↦ none
  ]
]

abbrev pub mdays : ℕ → List ℕ
mdays y = 31 ∷ (if is_leap y then 29 else 28) ∷ 31 ∷ 30 ∷ 31 ∷ 30 ∷ 31 ∷ 31 ∷ 30 ∷ 31 ∷ 30 ∷ 31 ∷ []

-- The loop over the months.
unfoldable pub month_loop : List ℕ → (mo days : ℕ) → ℕ × ℕ
month_loop [] mo days = (mo, days)
month_loop (md ∷ rest) mo days = elim (ltb days md) [
  | true ↦ (mo, days)
  | false ↦ month_loop rest (mo + 1) (days - md)
]

pub record Date : Type 0 where
  pub year : ℕ
  pub month : ℕ
  pub day : ℕ

-- The year, and the days that are left of it, with the month and the day of the month.
abbrev pub month_and_day : ℕ × ℕ → Date
month_and_day y =
    let m = month_loop (mdays y.0) 1 y.1 in record { year = y.0; month = m.0; day = m.1 + 1 }

unfoldable pub days_to_ymd : ℕ → Option Date
days_to_ymd days = Option.map month_and_day (year_loop days 1970 days)

pub record Time : Type 0 where
  pub date : Date
  pub hour : ℕ
  pub minute : ℕ
  pub second : ℕ

abbrev pub at_second : (secs : ℕ) → Date → Time
at_second secs date = record {
  date = date;
  hour = (secs / 3600) % 24;
  minute = (secs / 60) % 60;
  second = secs % 60;
}

unfoldable pub epoch_to_ymdhms : ℕ → Option Time
epoch_to_ymdhms secs = Option.map (at_second secs) (days_to_ymd (secs / 86400))
