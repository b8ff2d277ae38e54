-- ===== src/EkOutput/Dates.antt =====
-- The dates of src/ek_output.rs, against the Gregorian calendar.
pub mod Calendar
use tlscap.Prelude.{
  ℕ, zero, suc, ◌+◌, ◌-◌, ◌*◌, ◌/◌, ◌%◌, ◌≤◌, ◌<◌, ◌≡◌, ◌↔◌, refl, sym, ap, ◌∙◌, Bool, true, false,
  ◌&&◌, ◌||◌, not, List, [], ◌∷◌, ◌++◌, ltb, leb, ◌==◌, if◌then◌else◌, arith, Bool-cases, inl, inr,
}
use tlscap.Text.{Plain, Plain-append}
use tlscap.Text.Decimal.{padded, padded-Plain}

-- A `Duration` is its number of nanoseconds. `as_millis` and `as_micros`:
pub epoch_millis : ℕ → ℕ
epoch_millis t = t / 1_000_000

pub epoch_micros : ℕ → ℕ
epoch_micros t = t / 1000

-- `as_secs`
abbrev as_secs : ℕ → ℕ
as_secs t = t / 1_000_000_000

pub record Date : Type 0 where
  pub year : ℕ
  pub month : ℕ
  pub day : ℕ

-- The days of an era of 400 years that come before the day, and the year of the era.
abbrev year_of_era : ℕ → ℕ
year_of_era doe = (doe - doe / 1460 + doe / 36524 - doe / 146096) / 365

-- The last lines of `civil_from_days`, for a day of a year that begins in March.
pub from_march_day : ℕ → ℕ → Date
from_march_day y doy =
    let mp = (5 * doy + 2) / 153 in
    let d = doy - (153 * mp + 2) / 5 + 1 in
    let m = if ltb mp 10 then mp + 3 else mp - 9 in
    record { year = if leb m 2 then y + 1 else y; month = m; day = d }

-- The argument is not negative: `index_date` gives it a quotient of a `u64`. So the second case of
-- `era` is never taken.
pub civil_from_days : ℕ → Date
civil_from_days days =
    let z = days + 719468 in
    let era = z / 146097 in
    let doe = z - era * 146097 in
    let yoe = year_of_era doe in
    from_march_day (yoe + era * 400) (doe - (365 * yoe + yoe / 4 - yoe / 100))

abbrev hyphen : ℕ
hyphen = b'-'

pub index_date : ℕ → List ℕ
index_date t =
    let date = civil_from_days (as_secs t / 86400) in
    padded 4 date.year ++ (hyphen ∷ (padded 2 date.month ++ (hyphen ∷ padded 2 date.day)))

pub index_date-Plain : (t : ℕ) → Plain (index_date t)
unfolding index_date
index_date-Plain t =
    let date = civil_from_days (as_secs t / 86400) in
    Plain-append (padded 4 date.year) _ (padded-Plain 4 date.year) (
      omega arith,
      Plain-append (padded 2 date.month) _ (padded-Plain 2 date.month)
          (omega arith, padded-Plain 2 date.day),
    )

-- The Gregorian calendar.
pub is_leap : ℕ → Bool
is_leap y = ((y % 4 == 0) && not (y % 100 == 0)) || (y % 400 == 0)

abbrev february : ℕ → ℕ
february y = if is_leap y then 29 else 28

-- April, June, September and November.
abbrev is_short : ℕ → Bool
is_short m = (m == 4) || (m == 6) || (m == 9) || (m == 11)

pub month_length : ℕ → ℕ → ℕ
month_length y m = if m == 2 then february y else if is_short m then 30 else 31

-- Days before a year, counted from year 0, and before a month of a year.
pub days_before_year : ℕ → ℕ
days_before_year zero = 0
days_before_year (suc y) = days_before_year y + (if is_leap y then 366 else 365)

pub days_before_month : ℕ → ℕ → ℕ
days_before_month year zero = 0
days_before_month year (suc zero) = 0
days_before_month year (suc (suc m)) = month_length year (suc m) + days_before_month year (suc m)

-- Days since 0000-01-01.
pub day_number : Date → ℕ
day_number t = days_before_year t.year + days_before_month t.year t.month + (t.day - 1)

pub record IsDate (t : Date) : Type 0 where
  pub month_ge : 1 ≤ t.month
  pub month_le : t.month ≤ 12
  pub day_ge : 1 ≤ t.day
  pub day_le : t.day ≤ month_length t.year t.month
