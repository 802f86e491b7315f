-- ===== src/Clock/Gregorian.antt =====
-- The closed form of the Gregorian calendar, and the dates of src/exom.rs against it. Nothing of the
-- code's leap rule, years or table of months stands in the definitions of this file.
use mathlib.Core.Option
use ray_exomem.Prelude.{
  ◌≡◌, refl, ap, sym, ◌∙◌, ℕ, zero, suc, ◌+◌, ◌-◌, ◌*◌, ◌/◌, ◌%◌, ◌≤◌, ◌<◌, ◌==◌, leb, Bool,
  if◌then◌else◌, some, arith,
}
use ray_exomem.Clock.{is_leap, year_len, mdays, Date, Time, at_second, epoch_to_ymdhms}
use ray_exomem.Clock.Calendar.{year_start, month_start, month_len, IsDay, days_to_ymd-IsDay}

-- A century is long when 400 divides it, another year when 4 does.
abbrev pub is_long : ℕ → Bool
is_long y = if y % 100 == 0 then y % 400 == 0 else y % 4 == 0

-- The days of the years before a year, from the year 1.
abbrev pub days_before : (y : ℕ) → ℕ
days_before y = 365 * (y - 1) + (y - 1) / 4 + (y - 1) / 400 - (y - 1) / 100

-- The days of a year before a month, from 1 to 13: 367 in 12 months, less what February lacks.
abbrev pub days_until : (y m : ℕ) → ℕ
days_until y m = (367 * m - 362) / 12 - (if leb m 2 then 0 else if is_long y then 1 else 2)

-- The date has that many days from 1970-01-01, which is day 719163 from the year 1.
abbrev pub IsDate : (days : ℕ) → Date → Type 0
IsDate days date =
    (1970 ≤ date.year)
    × (1 ≤ date.month)
    × (date.month ≤ 12)
    × (1 ≤ date.day)
    × (days_until date.year date.month + date.day ≤ days_until date.year (date.month + 1))
    × (days_before date.year + days_until date.year date.month + date.day ≡ days + 719163)

days_before_next : (y : ℕ) → 1 ≤ y → days_before (y + 1) ≡ days_before y + year_len y
unfolding is_leap
days_before_next y h = ground arith

year_start-days_before : (n : ℕ) → year_start n + 719162 ≡ days_before (1970 + n)
unfolding year_start
year_start-days_before zero = refl
year_start-days_before (suc n) =
    let ih = year_start-days_before n in
    let next = days_before_next (1970 + n) (omega arith) in
    let same : days_before (1970 + suc n) ≡ days_before (1970 + n + 1) =
      ap days_before (omega arith) in
    omega (arith, ih, next, same)

month_start-days_until : (y k : ℕ) → k < 12 → month_start (mdays y) k ≡ days_until y (1 + k)
unfolding month_start month_len is_leap
month_start-days_until y zero h = ground arith
month_start-days_until y (suc zero) h = ground arith
month_start-days_until y (suc (suc zero)) h = ground arith
month_start-days_until y (suc (suc (suc zero))) h = ground arith
month_start-days_until y (suc (suc (suc (suc zero)))) h = ground arith
month_start-days_until y (suc (suc (suc (suc (suc zero))))) h = ground arith
month_start-days_until y (suc (suc (suc (suc (suc (suc zero)))))) h = ground arith
month_start-days_until y (suc (suc (suc (suc (suc (suc (suc zero))))))) h = ground arith
month_start-days_until y (suc (suc (suc (suc (suc (suc (suc (suc zero)))))))) h = ground arith
month_start-days_until y (suc (suc (suc (suc (suc (suc (suc (suc (suc zero))))))))) h = ground arith
month_start-days_until y (suc (suc (suc (suc (suc (suc (suc (suc (suc (suc zero)))))))))) h =
    ground arith
month_start-days_until y (suc (suc (suc (suc (suc (suc (suc (suc (suc (suc (suc zero))))))))))) h =
    ground arith
month_start-days_until y (suc (suc (suc (suc (suc (suc (suc (suc (suc (suc (suc (suc k))))))))))))
      h =
    absurd (omega arith)

month_len-days_until :
    (y k : ℕ) → k < 12 → days_until y (1 + k) + month_len (mdays y) k ≡ days_until y (2 + k)
unfolding month_start month_len is_leap
month_len-days_until y zero h = ground arith
month_len-days_until y (suc zero) h = ground arith
month_len-days_until y (suc (suc zero)) h = ground arith
month_len-days_until y (suc (suc (suc zero))) h = ground arith
month_len-days_until y (suc (suc (suc (suc zero)))) h = ground arith
month_len-days_until y (suc (suc (suc (suc (suc zero))))) h = ground arith
month_len-days_until y (suc (suc (suc (suc (suc (suc zero)))))) h = ground arith
month_len-days_until y (suc (suc (suc (suc (suc (suc (suc zero))))))) h = ground arith
month_len-days_until y (suc (suc (suc (suc (suc (suc (suc (suc zero)))))))) h = ground arith
month_len-days_until y (suc (suc (suc (suc (suc (suc (suc (suc (suc zero))))))))) h = ground arith
month_len-days_until y (suc (suc (suc (suc (suc (suc (suc (suc (suc (suc zero)))))))))) h =
    ground arith
month_len-days_until y (suc (suc (suc (suc (suc (suc (suc (suc (suc (suc (suc zero))))))))))) h =
    ground arith
month_len-days_until y (suc (suc (suc (suc (suc (suc (suc (suc (suc (suc (suc (suc k)))))))))))) h =
    absurd (omega arith)

IsDate-IsDay : (days : ℕ) (date : Date) → IsDay days date → IsDate days date
IsDate-IsDay days date (n, k, a, b, short, first, within, total) =
    let y = date.year in
    let before = month_start-days_until y k short in
    let size = month_len-days_until y k short in
    let here : days_until y date.month ≡ days_until y (1 + k) = ap (days_until y) b in
    let after : days_until y (date.month + 1) ≡ days_until y (2 + k) =
      ap (days_until y) (omega (arith, b)) in
    let years : year_start n + 719162 ≡ days_before y =
      year_start-days_before n ∙ ap days_before (sym a) in
    (
      omega (arith, a),
      omega (arith, b),
      omega (arith, b),
      first,
      omega (arith, here, after, size, within),
      omega (arith, here, before, years, total),
    )

-- The time of a second since 1970, up to 2 ^ 55 of them, for which a year is an `i32` with room to
-- spare: there is a result, its hour is below 24, its minute and its second below 60, and with the
-- days of its date they make up the seconds; the date is that of the closed form of the Gregorian
-- calendar, in a month of twelve and within the days of that month.
pub epoch_to_ymdhms-IsDate :
    (secs : ℕ)
    → secs ≤ 36028797018963968
    → (t : Time) × (epoch_to_ymdhms secs ≡ some t)
      × (t.hour < 24)
      × (t.minute < 60)
      × (t.second < 60)
      × ((days : ℕ) × IsDate days t.date
          × (days * 86400 + t.hour * 3600 + t.minute * 60 + t.second ≡ secs))
unfolding epoch_to_ymdhms
epoch_to_ymdhms-IsDate secs small =
    let (date, run, day) = days_to_ymd-IsDay (secs / 86400) (omega arith) in
    (
      at_second secs date,
      ap (Option.map (at_second secs)) run,
      omega arith,
      omega arith,
      omega arith,
      (secs / 86400, IsDate-IsDay (secs / 86400) date day, omega arith),
    )
