-- ===== src/Date/Tests.antt =====
-- Runs of the conversions, and the theorems at concrete dates.
use libanet.Common.{◌≡◌, refl, ℕ, arith, true, some, none}
use libanet.Common.Int.{pos, ◌+ℤ◌, ◌-ℤ◌, ◌*ℤ◌}
use libanet.Common.Options.{◌>>=◌}
use libanet.Date.{
  Date, get_julian_day_number, get_year_month_day, date, year_month_day, week_day, ltb_date,
  julian_day_of_1970_01_01,
}
use libanet.Date.Calendar.{IsDate, civil}
use libanet.Date.Exact.{count_date}
use libanet.Date.RoundTrip.{year_month_day-date, date-year_month_day}

operations : Unit {0}
unfolding get_julian_day_number get_year_month_day date year_month_day week_day ltb_date
    julian_day_of_1970_01_01 ◌+ℤ◌ ◌-ℤ◌ ◌*ℤ◌
operations = tt

-- January 1st, 1970, and the leap day of 2000.
abbrev epoch : Date
epoch = record { julian_day_number = pos 2440588 }

abbrev leap_day : Date
leap_day = record { julian_day_number = pos 2451604 }

-- The day number of a year that an int holds may be none.
runs :
    (julian_day_of_1970_01_01 ≡ pos 2440588)
    × (week_day epoch ≡ some (pos 4))
    × (date (pos 2000) (pos 2) (pos 29) ≡ some leap_day)
    × (year_month_day leap_day ≡ some (civil 6800 2 29))
    × (ltb_date epoch leap_day ≡ true)
    × (date (pos 2000000) (pos 1) (pos 1) ≡ some (record { julian_day_number = pos 732206060 }))
    × (year_month_day (record { julian_day_number = pos 732206060 }) ≡ none)
    × (date (pos 6000000) (pos 1) (pos 1) ≡ none)
unfolding operations
runs = (refl, refl, refl, refl, refl, refl, refl, refl)

leap_day-IsDate : IsDate 6800 2 29
leap_day-IsDate = omega arith

year_month_day-date_example :
    (date (pos 6800 -ℤ pos 4800) (pos 2) (pos 29) >>= year_month_day) ≡ some (civil 6800 2 29)
year_month_day-date_example = year_month_day-date 6800 2 29 leap_day-IsDate (omega arith)

date-year_month_day_example :
    (y m d : ℕ) × IsDate y m d
    × (year_month_day (count_date 2472632) ≡ some (civil y m d))
    × (date (pos y -ℤ pos 4800) (pos m) (pos d) ≡ some (count_date 2472632))
date-year_month_day_example = date-year_month_day 2472632 (omega arith) (omega arith)
