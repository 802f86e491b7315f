-- ===== src/Clock/Calendar.antt =====
-- The loops of `days_to_ymd` of src/exom.rs, against the years and months that they count.
use mathlib.Core.Option
use ray_exomem.Prelude.{
  ◌≡◌, refl, ap, sym, ◌∙◌, ℕ, zero, suc, ◌+◌, ◌-◌, ◌*◌, ◌≤◌, ◌<◌, some, List, [], ◌∷◌, ltb, true,
  Bool-cases, inl, inr, length, arith,
}
use ray_exomem.Clock.{
  year_len, year_loop, mdays, month_loop, month_and_day, Date, days_to_ymd, i32_max,
}

-- The days before a year, that many years after 1970.
unfoldable pub year_start : ℕ → ℕ
year_start zero = 0
year_start (suc n) = year_start n + year_len (1970 + n)

-- The days of the first months, and those of the month after them.
unfoldable pub month_start : List ℕ → ℕ → ℕ
month_start [] k = 0
month_start (md ∷ rest) zero = 0
month_start (md ∷ rest) (suc k) = md + month_start rest k

unfoldable pub month_len : List ℕ → ℕ → ℕ
month_len [] k = 0
month_len (md ∷ rest) zero = md
month_len (md ∷ rest) (suc k) = month_len rest k

-- A year and the days that are left, against the days since the start of an earlier year.
abbrev IsYear : (n days : ℕ) → ℕ × ℕ → Type 0
IsYear n days (y, left) =
    (m : ℕ) × (y ≡ 1970 + m) × (year_start m + left ≡ year_start n + days) × (left < year_len y)

year_len_pos : (y : ℕ) → 365 ≤ year_len y
year_len_pos y = ground arith

year_start_next : (y n : ℕ) → y ≡ 1970 + n → year_start (suc n) ≡ year_start n + year_len y
unfolding year_start
year_start_next y n h = ap (λ x. year_start n + year_len x) (sym h)

-- The loop ends with a year, if there are not more days than the years up to the last `i32` have.
year_loop-IsYear :
    (fuel y n days : ℕ)
    → y ≡ 1970 + n
    → days ≤ fuel
    → 365 * y + days ≤ 365 * i32_max
    → (found : ℕ × ℕ) × (year_loop fuel y days ≡ some found) × IsYear n days found
unfolding year_loop
year_loop-IsYear zero y n days i h fits =
    ((y, days), refl, (n, i, refl, omega (arith, year_len_pos y)))
year_loop-IsYear (suc fuel) y n days i h fits = elim (Bool-cases (ltb days (year_len y))) [
  | inl e ↦
      let part : days < year_len y = ground arith in
      rw (year_loop, e) ((y, days), refl, (n, i, refl, part))
  | inr e ↦
      let whole : year_len y ≤ days = ground arith in
      let enough : days - year_len y ≤ fuel = omega (arith, year_len_pos y) in
      let next : y + 1 ≡ 1970 + suc n = omega arith in
      let in_range : ltb y i32_max ≡ true =
        let small : y < i32_max = omega (arith, year_len_pos y) in ground arith in
      let (found, run, (m, a, b, c)) =
        year_loop-IsYear fuel (y + 1) (suc n) (days - year_len y) next enough
          (omega (arith, year_len_pos y)) in
      let same : year_start (suc n) + (days - year_len y) ≡ year_start n + days =
        omega (arith, year_start_next y n i) in
      rw (year_loop, e, in_range) (found, run, (m, a, b ∙ same, c))
]

-- What is left of the days after whole months.
abbrev IsMonth : List ℕ → (mo days : ℕ) → ℕ × ℕ → Type 0
IsMonth months mo days (found, left) =
    (k : ℕ) × (found ≡ mo + k)
    × (suc k ≤ length months)
    × (month_start months k + left ≡ days)
    × (left < month_len months k)

unfoldable sum : List ℕ → ℕ
sum [] = 0
sum (md ∷ rest) = md + sum rest

month_loop-IsMonth :
    (months : List ℕ) (mo days : ℕ)
    → days < sum months
    → IsMonth months mo days (month_loop months mo days)
unfolding month_loop month_start month_len sum
month_loop-IsMonth [] mo days h = absurd (omega arith)
month_loop-IsMonth (md ∷ rest) mo days h = elim (Bool-cases (ltb days md)) [
  | inl e ↦ rw (month_loop, e) (0, omega arith, omega arith, omega arith, ground arith)
  | inr e ↦
      let whole : md ≤ days = ground arith in
      let (k, a, b, c, d) = month_loop-IsMonth rest (mo + 1) (days - md) (omega arith) in
      rw (month_loop, e) (suc k, omega (arith, a), omega (arith, b), omega (arith, c), d)
]

sum-mdays : (y : ℕ) → sum (mdays y) ≡ year_len y
unfolding sum
sum-mdays y = ground arith

-- The first day of a date, counted from the start of 1970.
abbrev pub IsDay : (days : ℕ) → Date → Type 0
IsDay days date =
    (n : ℕ) × (k : ℕ) × (date.year ≡ 1970 + n)
    × (date.month ≡ 1 + k)
    × (k < 12)
    × (1 ≤ date.day)
    × (date.day ≤ month_len (mdays date.year) k)
    × (year_start n + month_start (mdays date.year) k + date.day ≡ days + 1)

mdays_date :
    (y : ℕ × ℕ) (n days : ℕ)
    → y.0 ≡ 1970 + n
    → year_start n + y.1 ≡ days
    → y.1 < year_len y.0
    → IsDay days (month_and_day y)
mdays_date y n days a b c =
    let m = month_loop (mdays y.0) 1 y.1 in
    let within : y.1 < sum (mdays y.0) = omega (arith, sum-mdays y.0) in
    let (k, d, e, f, g) = month_loop-IsMonth (mdays y.0) 1 y.1 within in
    let short : k < 12 = e in
    let total : year_start n + month_start (mdays y.0) k + (m.1 + 1) ≡ days + 1 =
      omega (arith, f, b) in
    (n, k, a, d, short, omega arith, omega (arith, g), total)

-- A number of days has a date, if the years up to the last `i32` are enough.
pub days_to_ymd-IsDay :
    (days : ℕ)
    → 365 * 1970 + days ≤ 365 * i32_max
    → (date : Date) × (days_to_ymd days ≡ some date) × IsDay days date
unfolding days_to_ymd year_start
days_to_ymd-IsDay days fits =
    let (found, run, (n, a, b, c)) = year_loop-IsYear days 1970 0 days refl (omega arith) fits in
    (
      month_and_day found,
      ap (Option.map month_and_day) run,
      mdays_date found n days a (b ∙ omega arith) c,
    )
