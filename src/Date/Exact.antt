-- ===== src/Date/Exact.antt =====
-- The values that base/Date.cc computes, without the bounds of int.
use libanet.Common.{ℕ, ◌+◌, ◌-◌, ◌*◌, ◌/◌, ◌≤◌, ◌≡◌, arith}
use libanet.Common.Int.{pos, ◌+ℤ◌, ◌-ℤ◌, pos-add, pos-sub, pos-mul, int_laws}
use libanet.Date.{YearMonthDay, Date, julian_day_number_of, year_month_day_of}
use libanet.Date.Days.{
  century, century_day, century_year, year_day, year_month, month_day, days_to_year, days_before,
  year-days, year_month-days, year_day-IsDayOf, days-parts, month_day-IsMonthDay,
}
use libanet.Date.Calendar.{
  IsDate, civil, closes, march_month, IsDate-IsMonthDay, IsMonthDay-IsDate, IsDate-IsDayOf,
}

-- The day number of the day that is `q` days after March 1st of the year -4800.
abbrev pub count_date : ℕ → Date
count_date q = record { julian_day_number = pos q -ℤ pos 32044 }

-- The day count of a date.
abbrev pub day_count : ℕ → ℕ → ℕ → ℕ
day_count y m d = days_to_year (y - closes m) + days_before (march_month m) d

pub julian_day_number_of-count :
    (y m d : ℕ)
    → IsDate y m d
    → julian_day_number_of (pos y -ℤ pos 4800) (pos m) (pos d) ≡ pos (day_count y m d) -ℤ pos 32044
unfolding julian_day_number_of
julian_day_number_of-count y m d v =
    rw
      (
        pos-sub 14 m (omega arith),
        shift,
        pos-sub y (closes m) (omega arith),
        pos-mul 12 (closes m),
        pos-add m (12 * closes m),
        pos-sub (m + 12 * closes m) 3 (omega arith),
        pos-mul 153 (march_month m),
        pos-add (153 * march_month m) 2,
        pos-mul (y - closes m) 365,
      )
      (omega int_laws)
  where
    shift : pos y -ℤ pos 4800 +ℤ pos 4800 ≡ pos y
    shift = omega int_laws

pub add_year : (a b : ℕ) → pos a -ℤ pos 4800 +ℤ pos b ≡ pos (a + b) -ℤ pos 4800
add_year a b = omega int_laws

abbrev pub count_civil : ℕ → YearMonthDay
count_civil q = record {
  year = pos (century q * 100 + century_year q + year_month q / 10) -ℤ pos 4800;
  month = pos (year_month q + 3 - 12 * (year_month q / 10));
  day = pos (month_day q);
}

pub year_month_day_of-count : (q : ℕ) → year_month_day_of (pos q -ℤ pos 32044) ≡ count_civil q
unfolding year_month_day_of
year_month_day_of-count q = rw (
  shift,
  pos-mul 4 q,
  pos-add (4 * q) 3,
  pos-mul (century q) 146097,
  pos-sub q (century q * 146097 / 4) (omega arith),
  pos-mul 4 (century_day q),
  pos-add (4 * century_day q) 3,
  pos-mul 1461 (century_year q),
  pos-sub (century_day q) (1461 * century_year q / 4) (omega arith),
  pos-mul 5 (year_day q),
  pos-add (5 * year_day q) 2,
  pos-mul 153 (year_month q),
  pos-add (153 * year_month q) 2,
  pos-sub (year_day q) ((153 * year_month q + 2) / 5) (omega arith),
  pos-add (year_day q - (153 * year_month q + 2) / 5) 1,
  pos-mul 12 (year_month q / 10),
  pos-add (year_month q) 3,
  pos-sub (year_month q + 3) (12 * (year_month q / 10)) (omega arith),
  pos-mul (century q) 100,
  pos-add (century q * 100) (century_year q),
  add_year (century q * 100 + century_year q) (year_month q / 10),
)
  where
    shift : pos q -ℤ pos 32044 +ℤ pos 32044 ≡ pos q
    shift = omega int_laws

pub count_civil-day_count : (y m d : ℕ) → IsDate y m d → count_civil (day_count y m d) ≡ civil y m d
count_civil-day_count y m d v =
    let e = days_before (march_month m) d in
    let in_year = IsDate-IsDayOf y m d v in
    let in_month =
      year_month-days (y - closes m) (march_month m) d (IsDate-IsMonthDay y m d v) in_year in
    let year_is : y - closes m + march_month m / 10 ≡ y = omega arith in
    let month_is : march_month m + 3 - 12 * (march_month m / 10) ≡ m = omega arith in
    rw (year-days (y - closes m) e in_year, in_month.1, in_month.0, year_is, month_is)

abbrev pub found_year : ℕ → ℕ
found_year q = century q * 100 + century_year q

-- After the first 306 days the year is positive.
found_year_pos : (q : ℕ) → 306 ≤ q → 1 ≤ found_year q + year_month q / 10
found_year_pos q h = omega (arith, days-parts q)

pub found-IsDate :
    (q : ℕ)
    → 306 ≤ q
    → IsDate
        (found_year q + year_month q / 10)
        (year_month q + 3 - 12 * (year_month q / 10))
        (month_day q)
found-IsDate q h =
    let (in_month, same) = month_day-IsMonthDay q in
    IsMonthDay-IsDate (found_year q) (year_month q) (month_day q) in_month
      (rw same (year_day-IsDayOf q)) (found_year_pos q h)

pub day_count-found :
    (q : ℕ)
    → day_count
        (found_year q + year_month q / 10)
        (year_month q + 3 - 12 * (year_month q / 10))
        (month_day q)
      ≡ q
day_count-found q =
    let (in_month, same) = month_day-IsMonthDay q in
    let closing : closes (year_month q + 3 - 12 * (year_month q / 10)) ≡ year_month q / 10 =
      omega arith in
    let month_is : march_month (year_month q + 3 - 12 * (year_month q / 10)) ≡ year_month q =
      omega arith in
    let year_is : found_year q
          + year_month q / 10
          - closes (year_month q + 3 - 12 * (year_month q / 10))
        ≡ found_year q =
      omega arith in
    rw (month_is, year_is, same) (days-parts q)
