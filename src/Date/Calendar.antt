-- ===== src/Date/Calendar.antt =====
-- The Gregorian calendar as a specification for base/Date.cc, with years counted from -4800 (so
-- that the year 2000 is 6800; the leap rule repeats after 400 years).
use libanet.Common.{
  ℕ, ◌+◌, ◌-◌, ◌*◌, ◌/◌, ◌%◌, ◌≤◌, ◌||◌, ◌&&◌, not, Bool, arith, ◌==◌, if◌then◌else◌,
}
use libanet.Common.Int.{pos, ◌-ℤ◌}
use libanet.Date.{YearMonthDay}
use libanet.Date.Days.{IsDayOf, IsMonthDay, days_before}

abbrev pub is_leap : ℕ → Bool
is_leap y = (y % 4 == 0) && (not (y % 100 == 0) || (y % 400 == 0))

abbrev pub days_in_month : ℕ → ℕ → ℕ
days_in_month y m =
    if m == 2
    then (if is_leap y then 29 else 28)
    else if (m == 4) || ((m == 6) || ((m == 9) || (m == 11)))
    then 30
    else 31

-- A day of the calendar after the year -4800.
pub record IsDate (y m d : ℕ) : Type 0 where
  pub year_in : 1 ≤ y
  pub month_in : (1 ≤ m) × (m ≤ 12)
  pub day_in : (1 ≤ d) × (d ≤ days_in_month y m)

abbrev pub civil : ℕ → ℕ → ℕ → YearMonthDay
civil y m d = record { year = pos y -ℤ pos 4800; month = pos m; day = pos d }

-- 1 for January and February, which close the year that began in March.
abbrev pub closes : ℕ → ℕ
closes m = (14 - m) / 12

abbrev pub march_month : ℕ → ℕ
march_month m = m + 12 * closes m - 3

pub IsDate-IsMonthDay : (y m d : ℕ) → IsDate y m d → IsMonthDay (march_month m) d
IsDate-IsMonthDay y m d v = ground arith

pub IsDate-IsDayOf :
    (y m d : ℕ) → IsDate y m d → IsDayOf (y - closes m) (days_before (march_month m) d)
IsDate-IsDayOf y m d v = ground arith

-- A day of a March month, by its civil month and year.
pub IsMonthDay-IsDate :
    (y m d : ℕ)
    → IsMonthDay m d
    → IsDayOf y (days_before m d)
    → 1 ≤ y + m / 10
    → IsDate (y + m / 10) (m + 3 - 12 * (m / 10)) d
IsMonthDay-IsDate y m d k h later = ground arith
