-- ===== src/EkOutput/Dates/Calendar.antt =====
-- `civil_from_days` of src/ek_output.rs is right for every day from 1970 on.
use tlscap.Prelude.{
  ℕ, zero, suc, ◌+◌, ◌-◌, ◌*◌, ◌/◌, ◌%◌, ◌≤◌, ◌<◌, ◌≡◌, refl, ap, ◌∙◌, true, false, ltb, leb, ◌==◌,
  if◌then◌else◌, arith, Bool-cases, inl, inr,
}
use tlscap.EkOutput.Dates.{
  Date, year_of_era, from_march_day, civil_from_days, is_leap, month_length, days_before_year,
  days_before_month, day_number, IsDate,
}

-- 1 in a leap year.
abbrev leap_day : ℕ → ℕ
leap_day y = if is_leap y then 1 else 0

-- Days of an era before its year `n`, where years begin in March.
abbrev before : ℕ → ℕ
before n = 365 * n + n / 4 - n / 100

days_before_year_closed :
    (y : ℕ) → days_before_year (suc y) + y / 100 ≡ 366 + 365 * y + y / 4 + y / 400
unfolding days_before_year is_leap
days_before_year_closed zero = omega arith
days_before_year_closed (suc y) = ground (arith, days_before_year_closed y)

year_of_era_bounds :
    (doe : ℕ)
    → doe < 146097
    → (year_of_era doe ≤ 399)
      × (before (year_of_era doe) ≤ doe)
      × (doe - before (year_of_era doe) ≤ 365)
year_of_era_bounds doe h = omega arith

from_march :
    (y mp : ℕ) → mp < 10 → days_before_month y (mp + 3) ≡ 59 + leap_day y + (153 * mp + 2) / 5
unfolding days_before_month month_length
from_march y zero h = ground arith
from_march y (suc zero) h = ground arith
from_march y (suc (suc zero)) h = ground arith
from_march y (suc (suc (suc zero))) h = ground arith
from_march y (suc (suc (suc (suc zero)))) h = ground arith
from_march y (suc (suc (suc (suc (suc zero))))) h = ground arith
from_march y (suc (suc (suc (suc (suc (suc zero)))))) h = ground arith
from_march y (suc (suc (suc (suc (suc (suc (suc zero))))))) h = ground arith
from_march y (suc (suc (suc (suc (suc (suc (suc (suc zero)))))))) h = ground arith
from_march y (suc (suc (suc (suc (suc (suc (suc (suc (suc zero))))))))) h = ground arith
from_march y (suc (suc (suc (suc (suc (suc (suc (suc (suc (suc n)))))))))) h = absurd (omega arith)

-- A year of 366 days ends with February 29.
year_of_era_leap :
    (doe : ℕ)
    → doe < 146097
    → doe - before (year_of_era doe) ≡ 365
    → is_leap (year_of_era doe + 1) ≡ true
unfolding is_leap
year_of_era_leap doe h e = ground arith

is_leap-era : (y era : ℕ) → is_leap (y + era * 400) ≡ is_leap y
unfolding is_leap
is_leap-era y era =
    let by4 : (y + era * 400) % 4 ≡ y % 4 = omega arith in
    let by100 : (y + era * 400) % 100 ≡ y % 100 = omega arith in
    let by400 : (y + era * 400) % 400 ≡ y % 400 = omega arith in rw (by4, by100, by400)

before-era :
    (y era : ℕ) → y ≤ 399 → days_before_year (suc (y + era * 400)) ≡ 366 + era * 146097 + before y
before-era y era h = omega (arith, days_before_year_closed (y + era * 400))

month_len :
    (y mp : ℕ) → mp < 10 → month_length y (mp + 3) + (153 * mp + 2) / 5 ≡ (153 * mp + 155) / 5
unfolding month_length
month_len y mp h = ground arith

from_january : (y m : ℕ) → 1 ≤ m → m ≤ 2 → days_before_month y m ≡ 31 * (m - 1)
unfolding days_before_month month_length
from_january y zero h k = absurd (omega arith)
from_january y (suc zero) h k = omega arith
from_january y (suc (suc zero)) h k = ground arith
from_january y (suc (suc (suc m))) h k = absurd (omega arith)

early_fits :
    (y m d : ℕ)
    → 1 ≤ m
    → m ≤ 2
    → (m ≡ 1 → d ≤ 31)
    → (m ≡ 2 → d ≤ 28 + leap_day y)
    → d ≤ month_length y m
unfolding month_length
early_fits y zero d h k january february = absurd (omega arith)
early_fits y (suc zero) d h k january february = january refl
early_fits y (suc (suc zero)) d h k january february = ground (arith, february refl)
early_fits y (suc (suc (suc m))) d h k january february = absurd (omega arith)

-- A day of the year that begins in March, as a month and a day.
module _ (y doy : ℕ) (fits : doy ≤ 365) (long : doy ≡ 365 → is_leap (suc y) ≡ true) where
  abbrev mp : ℕ
  mp = (5 * doy + 2) / 153

  abbrev day : ℕ
  day = doy - (153 * mp + 2) / 5 + 1

  abbrev late : Date
  late = record { year = y; month = mp + 3; day = day }

  abbrev early : Date
  early = record { year = suc y; month = mp - 9; day = day }

  late_is : mp < 10 → (day_number late ≡ days_before_year y + 59 + leap_day y + doy) × IsDate late
  unfolding day_number
  late_is h = (
    omega (arith, from_march y mp h),
    record {
      month_ge = omega arith;
      month_le = omega arith;
      day_ge = omega arith;
      day_le = omega (arith, month_len y mp h);
    },
  )

  early_is : 10 ≤ mp → (day_number early + 306 ≡ days_before_year (suc y) + doy) × IsDate early
  unfolding day_number
  early_is h =
      let start = from_january (suc y) (mp - 9) (omega arith) (omega arith) in
      let february : mp - 9 ≡ 2 → day ≤ 28 + leap_day (suc y) = λ e.
        elim (Bool-cases (doy == 365)) [
          | inl last ↦ let leap = long (ground arith) in rw leap (omega arith)
          | inr other ↦ let short : doy ≤ 364 = ground arith in omega arith
        ] in
      (
        omega (arith, start),
        record {
          month_ge = omega arith;
          month_le = omega arith;
          day_ge = omega arith;
          day_le =
              early_fits (suc y) (mp - 9) day (omega arith) (omega arith) (λ e. omega arith)
                february;
        },
      )

  from_march_day-IsDate :
      (day_number (from_march_day y doy) + 306 ≡ days_before_year (suc y) + doy)
      × IsDate (from_march_day y doy)
  unfolding from_march_day days_before_year
  from_march_day-IsDate = elim (Bool-cases (ltb mp 10)) [
    | inl h ↦
        let same_year : leb (mp + 3) 2 ≡ false = ground arith in
        let (number, valid) = late_is (ground arith) in
        rw (h, same_year) (ground (arith, number), valid)
    | inr h ↦
        let next_year : leb (mp - 9) 2 ≡ true = ground arith in
        let e : y + 1 ≡ suc y = omega arith in rw (h, next_year, e) (early_is (ground arith))
  ]

-- The date is one of the calendar, and it is the right one: as many days after 0000-01-01 as 1970-01-01
-- is, 719528, and then the number of days given.
pub civil_from_days-IsDate :
    (days : ℕ) → (day_number (civil_from_days days) ≡ 719528 + days) × IsDate (civil_from_days days)
unfolding civil_from_days
civil_from_days-IsDate days =
    let z = days + 719468 in
    let era = z / 146097 in
    let doe = z - era * 146097 in
    let inside : doe < 146097 = omega arith in
    let (small, first, last) = year_of_era_bounds doe inside in
    let yoe = year_of_era doe in
    let y = yoe + era * 400 in
    let doy = doe - before yoe in
    let next : suc y ≡ yoe + 1 + era * 400 = omega arith in
    let long : doy ≡ 365 → is_leap (suc y) ≡ true =
      λ e. ap is_leap next ∙ is_leap-era (yoe + 1) era ∙ year_of_era_leap doe inside e in
    let total = before-era yoe era small in
    let (number, valid) = from_march_day-IsDate y doy last long in
    (omega (arith, number, total), valid)
