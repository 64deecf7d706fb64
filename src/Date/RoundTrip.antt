-- ===== src/Date/RoundTrip.antt =====
-- base/Date.cc: day numbers and calendar dates determine each other.
use libanet.Common.{ℕ, ◌+◌, ◌-◌, ◌*◌, ◌/◌, ◌≤◌, ◌≡◌, ap, ◌∙◌, refl, some, arith}
use libanet.Common.Int.{pos, ◌-ℤ◌}
use libanet.Common.Ints.{all_ints-AllInts}
use libanet.Common.Options.{◌>>=◌}
use libanet.Date.{get_julian_day_number, get_year_month_day, date, year_month_day}
use libanet.Date.Days.{year_month, month_day}
use libanet.Date.Calendar.{IsDate, civil, closes, march_month}
use libanet.Date.Exact.{
  count_date, day_count, found_year, julian_day_number_of-count, year_month_day_of-count,
  count_civil, count_civil-day_count, found-IsDate, day_count-found,
}
use libanet.Date.Bounds.{day_range, julian_day_number_ints-AllInts, year_month_day_ints-AllInts}

pub date-count :
    (y m d : ℕ)
    → IsDate y m d
    → y ≤ 5000000
    → date (pos y -ℤ pos 4800) (pos m) (pos d) ≡ some (count_date (day_count y m d))
unfolding date get_julian_day_number
date-count y m d v h =
    rw
      (
        all_ints-AllInts _ (julian_day_number_ints-AllInts y m d v h),
        julian_day_number_of-count y m d v,
      )
      refl

pub year_month_day-count :
    (q : ℕ) → q ≤ 536870911 → year_month_day (count_date q) ≡ some (count_civil q)
unfolding year_month_day get_year_month_day
year_month_day-count q h =
    rw (all_ints-AllInts _ (year_month_day_ints-AllInts q h), year_month_day_of-count q) refl

pub day_count_bound : (y m d : ℕ) → IsDate y m d → y ≤ 1469000 → day_count y m d ≤ 536870911
day_count_bound y m d v h =
    let last = day_range y m d v in
    let low : y - closes m ≤ 1469000 = omega arith in
    let k : march_month m ≤ 11 = omega arith in omega (arith, last, low, k)

-- For a day of the Gregorian calendar from the year -4799 to 1464200 the ints of base/Date.cc do not
-- overflow, and the year, month and day that are computed from its Julian day number are its own.
pub year_month_day-date :
    (y m d : ℕ)
    → IsDate y m d
    → y ≤ 1469000
    → (date (pos y -ℤ pos 4800) (pos m) (pos d) >>= year_month_day) ≡ some (civil y m d)
year_month_day-date y m d v h =
    rw
      (
        date-count y m d v (omega arith),
        year_month_day-count (day_count y m d) (day_count_bound y m d v h),
        count_civil-day_count y m d v,
      )
      refl

found_year_bound : (q : ℕ) → q ≤ 536870911 → found_year q + year_month q / 10 ≤ 5000000
found_year_bound q h = omega (arith, day_count-found q)

-- Every Julian day number from -31738 to 536838867 is taken, without an overflow of the ints, to a
-- day of the Gregorian calendar, whose Julian day number is the one given.
pub date-year_month_day :
    (q : ℕ)
    → 306 ≤ q
    → q ≤ 536870911
    → (y m d : ℕ) × IsDate y m d
      × (year_month_day (count_date q) ≡ some (civil y m d))
      × (date (pos y -ℤ pos 4800) (pos m) (pos d) ≡ some (count_date q))
date-year_month_day q h k = (
  found_year q + year_month q / 10,
  year_month q + 3 - 12 * (year_month q / 10),
  month_day q,
  found-IsDate q h,
  year_month_day-count q k,
  date-count _ _ _ (found-IsDate q h) (found_year_bound q k)
      ∙ ap (λ n. some (count_date n)) (day_count-found q),
)
