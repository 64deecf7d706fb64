-- ===== src/Date.antt =====
-- base/Date.h and base/Date.cc: Julian day numbers. `none` is a sum, difference or product that an int
-- of 32 bits does not hold. A quotient of ints by a positive number always is one.
mod Days
pub mod Calendar
pub mod Exact
pub mod Bounds
pub mod RoundTrip
mod Tests
use libanet.Common.{ℕ, Bool, Option, none, some, List, [], ◌∷◌}
use libanet.Common.Ints.{is_int, all_ints}
use libanet.Common.Options.{◌>>=◌, ◌>>◌, check}
use libanet.Common.Int.{ℤ, pos, ◌+ℤ◌, ◌-ℤ◌, ◌*ℤ◌, ◌/ℤ◌, ◌%ℤ◌, ltb_ℤ}

pub record YearMonthDay : Type 0 where
  pub year : ℤ
  pub month : ℤ
  pub day : ℤ

-- What detail::getJulianDayNumber computes
unfoldable pub julian_day_number_of : ℤ → ℤ → ℤ → ℤ
julian_day_number_of year month day =
    let a = (pos 14 -ℤ month) /ℤ 12 in
    let y = year +ℤ pos 4800 -ℤ a in
    let m = month +ℤ pos 12 *ℤ a -ℤ pos 3 in
    day
    +ℤ (pos 153 *ℤ m +ℤ pos 2) /ℤ 5
    +ℤ y *ℤ pos 365
    +ℤ y /ℤ 4
    -ℤ y /ℤ 100
    +ℤ y /ℤ 400
    -ℤ pos 32045

-- The sums, differences and products on the way
unfoldable pub julian_day_number_ints : ℤ → ℤ → ℤ → List ℤ
julian_day_number_ints year month day =
    let a = (pos 14 -ℤ month) /ℤ 12 in
    let y = year +ℤ pos 4800 -ℤ a in
    let m = month +ℤ pos 12 *ℤ a -ℤ pos 3 in
    let days = day +ℤ (pos 153 *ℤ m +ℤ pos 2) /ℤ 5 in
    (pos 14 -ℤ month)
    ∷ (year +ℤ pos 4800)
    ∷ y
    ∷ (pos 12 *ℤ a)
    ∷ (month +ℤ pos 12 *ℤ a)
    ∷ m
    ∷ (pos 153 *ℤ m)
    ∷ (pos 153 *ℤ m +ℤ pos 2)
    ∷ days
    ∷ (y *ℤ pos 365)
    ∷ (days +ℤ y *ℤ pos 365)
    ∷ (days +ℤ y *ℤ pos 365 +ℤ y /ℤ 4)
    ∷ (days +ℤ y *ℤ pos 365 +ℤ y /ℤ 4 -ℤ y /ℤ 100)
    ∷ (days +ℤ y *ℤ pos 365 +ℤ y /ℤ 4 -ℤ y /ℤ 100 +ℤ y /ℤ 400)
    ∷ (days +ℤ y *ℤ pos 365 +ℤ y /ℤ 4 -ℤ y /ℤ 100 +ℤ y /ℤ 400 -ℤ pos 32045)
    ∷ []

-- detail::getJulianDayNumber
unfoldable pub get_julian_day_number : ℤ → ℤ → ℤ → Option ℤ
unfolding julian_day_number_of julian_day_number_ints
get_julian_day_number year month day = do
  check (all_ints (julian_day_number_ints year month day))
  some (julian_day_number_of year month day)

-- What detail::getYearMonthDay computes
unfoldable pub year_month_day_of : ℤ → YearMonthDay
year_month_day_of julian_day_number =
    let a = julian_day_number +ℤ pos 32044 in
    let b = (pos 4 *ℤ a +ℤ pos 3) /ℤ 146097 in
    let c = a -ℤ (b *ℤ pos 146097) /ℤ 4 in
    let d = (pos 4 *ℤ c +ℤ pos 3) /ℤ 1461 in
    let e = c -ℤ (pos 1461 *ℤ d) /ℤ 4 in
    let m = (pos 5 *ℤ e +ℤ pos 2) /ℤ 153 in
    record {
      year = b *ℤ pos 100 +ℤ d -ℤ pos 4800 +ℤ m /ℤ 10;
      month = m +ℤ pos 3 -ℤ pos 12 *ℤ (m /ℤ 10);
      day = e -ℤ (pos 153 *ℤ m +ℤ pos 2) /ℤ 5 +ℤ pos 1;
    }

-- The sums, differences and products on the way
unfoldable pub year_month_day_ints : ℤ → List ℤ
year_month_day_ints julian_day_number =
    let a = julian_day_number +ℤ pos 32044 in
    let b = (pos 4 *ℤ a +ℤ pos 3) /ℤ 146097 in
    let c = a -ℤ (b *ℤ pos 146097) /ℤ 4 in
    let d = (pos 4 *ℤ c +ℤ pos 3) /ℤ 1461 in
    let e = c -ℤ (pos 1461 *ℤ d) /ℤ 4 in
    let m = (pos 5 *ℤ e +ℤ pos 2) /ℤ 153 in
    a
    ∷ (pos 4 *ℤ a)
    ∷ (pos 4 *ℤ a +ℤ pos 3)
    ∷ (b *ℤ pos 146097)
    ∷ c
    ∷ (pos 4 *ℤ c)
    ∷ (pos 4 *ℤ c +ℤ pos 3)
    ∷ (pos 1461 *ℤ d)
    ∷ e
    ∷ (pos 5 *ℤ e)
    ∷ (pos 5 *ℤ e +ℤ pos 2)
    ∷ (pos 153 *ℤ m)
    ∷ (pos 153 *ℤ m +ℤ pos 2)
    ∷ (e -ℤ (pos 153 *ℤ m +ℤ pos 2) /ℤ 5)
    ∷ (e -ℤ (pos 153 *ℤ m +ℤ pos 2) /ℤ 5 +ℤ pos 1)
    ∷ (m +ℤ pos 3)
    ∷ (pos 12 *ℤ (m /ℤ 10))
    ∷ (m +ℤ pos 3 -ℤ pos 12 *ℤ (m /ℤ 10))
    ∷ (b *ℤ pos 100)
    ∷ (b *ℤ pos 100 +ℤ d)
    ∷ (b *ℤ pos 100 +ℤ d -ℤ pos 4800)
    ∷ (b *ℤ pos 100 +ℤ d -ℤ pos 4800 +ℤ m /ℤ 10)
    ∷ []

-- detail::getYearMonthDay
unfoldable pub get_year_month_day : ℤ → Option YearMonthDay
unfolding year_month_day_of year_month_day_ints
get_year_month_day julian_day_number = do
  check (all_ints (year_month_day_ints julian_day_number))
  some (year_month_day_of julian_day_number)

pub record Date : Type 0 where
  pub julian_day_number : ℤ

abbrev pub days_per_week : ℕ
days_per_week = 7

-- Date::kJulianDayOf1970_01_01
unfoldable pub julian_day_of_1970_01_01 : ℤ
unfolding julian_day_number_of ◌+ℤ◌ ◌-ℤ◌ ◌*ℤ◌
julian_day_of_1970_01_01 = julian_day_number_of (pos 1970) (pos 1) (pos 1)

-- Date(year, month, day)
unfoldable pub date : ℤ → ℤ → ℤ → Option Date
unfolding get_julian_day_number
date y m d = do n ← get_julian_day_number y m d; some (record { julian_day_number = n })

unfoldable pub year_month_day : Date → Option YearMonthDay
unfolding get_year_month_day
year_month_day t = get_year_month_day t.julian_day_number

unfoldable pub week_day : Date → Option ℤ
week_day t = do
  check (is_int (t.julian_day_number +ℤ pos 1))
  some ((t.julian_day_number +ℤ pos 1) %ℤ days_per_week)

-- operator<
unfoldable pub ltb_date : Date → Date → Bool
ltb_date x y = ltb_ℤ x.julian_day_number y.julian_day_number
