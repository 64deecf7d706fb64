-- ===== src/TimeZone/UtcTime.antt =====
-- The round trips of `toUtcTime` and `fromUtcTime` in base/TimeZone.cc.
use libanet.Common.{ℕ, ◌+◌, ◌*◌, ◌/◌, ◌%◌, ◌≤◌, ◌<◌, ◌≡◌, refl, sym, ap, ap₂, ◌∙◌, some, arith}
use libanet.Common.Int.{
  ℤ, pos, ◌+ℤ◌, ◌-ℤ◌, ◌*ℤ◌, ◌≤ℤ◌, ◌<ℤ◌, pos_part, neg_part, int_laws, +ℤ_parts, pos-add, pos-mul,
}
use libanet.Common.Ints.{IsInt, is_int-IsInt, one_part}
use libanet.Common.Options.{◌>>=◌}
use libanet.Date.{date, year_month_day, julian_day_of_1970_01_01}
use libanet.Date.Bounds.{difference}
use libanet.Date.Calendar.{IsDate, civil}
use libanet.Date.Exact.{count_date, day_count, count_civil-day_count}
use libanet.Date.RoundTrip.{date-year_month_day, date-count, year_month_day-count, day_count_bound}
use libanet.TimeZone.SplitDay.{
  mul_parts, IsMoment, divide_day-IsMoment, divide_day_whole, split_day-divide_day,
}
use libanet.TimeZone.{DateTime, fill_hms, split_day, break_time, to_utc_time, from_utc_time}

epoch : julian_day_of_1970_01_01 ≡ pos 2440588
unfolding julian_day_of_1970_01_01 ◌+ℤ◌ ◌-ℤ◌ ◌*ℤ◌
epoch = refl

-- Proleptic Gregorian dates begin with January 1st of the year -4799.
abbrev pub first_moment : ℤ
first_moment = pos 0 -ℤ pos (2472326 * 86400)

-- The first second of a day of which the code does not find the date.
abbrev pub first_overflow : ℤ
first_overflow = pos (534398280 * 86400)

-- Day 0 of the calendar is March 1st of the year -4800, and 1970 begins with day 2472632.
abbrev day_of : ℤ → ℕ
day_of days = pos_part (days +ℤ pos 2472632)

-- A date and time as `from_utc_time` takes it: `y` counts from the year -4800.
abbrev pub civil_time : (y m d h min s : ℕ) → DateTime
civil_time y m d h min s = record {
  year = pos y -ℤ pos 4800;
  month = pos m;
  day = pos d;
  hour = pos h;
  minute = pos min;
  second = pos s;
}

abbrev second_of_day : ℕ → ℕ → ℕ → ℕ
second_of_day h min s = h * 3600 + min * 60 + s

-- The days since 1970 of a day of the calendar.
abbrev days_of : ℕ → ℤ
days_of q = pos q -ℤ pos 32044 -ℤ pos 2440588

from_utc_time-civil :
    (y m d h min s q : ℕ)
    → date (pos y -ℤ pos 4800) (pos m) (pos d) ≡ some (count_date q)
    → q ≤ 536870911
    → h < 24
    → min < 60
    → s < 60
    → from_utc_time (civil_time y m d h min s)
      ≡ some (days_of q *ℤ pos 86400 +ℤ pos (second_of_day h min s))
unfolding from_utc_time
from_utc_time-civil y m d h min s q e k hh hm hs =
    let hours : IsInt (pos (h * 3600)) = (omega arith, omega arith) in
    let minutes : IsInt (pos (min * 60)) = (omega arith, omega arith) in
    let both : IsInt (pos (h * 3600 + min * 60)) = (omega arith, omega arith) in
    let all : IsInt (pos (second_of_day h min s)) = (omega arith, omega arith) in
    let o = one_part (days_of q) in
    let days : IsInt (days_of q) = (omega (int_laws, k, o), omega (int_laws, k, o)) in
    rw
      (
        e,
        epoch,
        pos-mul h 3600,
        pos-mul min 60,
        pos-add (h * 3600) (min * 60),
        pos-add (h * 3600 + min * 60) s,
        is_int-IsInt (pos (h * 3600)) hours,
        is_int-IsInt (pos (min * 60)) minutes,
        is_int-IsInt (pos (h * 3600 + min * 60)) both,
        is_int-IsInt (pos (second_of_day h min s)) all,
        is_int-IsInt (days_of q) days,
      )
      refl

-- What `break_time` makes of a day and its second.
break_time-civil :
    (t days : ℤ) (s q y m d : ℕ)
    → split_day t ≡ some (days, pos s)
    → days +ℤ pos 2440588 ≡ pos q -ℤ pos 32044
    → q ≤ 536870911
    → year_month_day (count_date q) ≡ some (civil y m d)
    → to_utc_time t ≡ some (civil_time y m d (s / 60 / 60) (s / 60 % 60) (s % 60))
unfolding to_utc_time break_time fill_hms
break_time-civil t days s q y m d e n k found =
    rw
      (
        e,
        epoch,
        n,
        is_int-IsInt (pos q -ℤ pos 32044) (difference q 32044 (omega (arith, k)) (omega arith)),
        found,
      )
      refl

day_of-count :
    (days : ℤ)
    → pos 0 -ℤ pos 2472326 ≤ℤ days
    → days ≤ℤ pos 534398279
    → (306 ≤ day_of days)
      × (day_of days ≤ 536870911)
      × (days +ℤ pos 2440588 ≡ pos (day_of days) -ℤ pos 32044)
day_of-count days h k =
    let o = one_part (days +ℤ pos 2472632) in
    (omega int_laws, omega (int_laws, o), omega (int_laws, o))

in_range :
    (t days : ℤ) (s : ℕ)
    → IsMoment t days s
    → first_moment ≤ℤ t
    → t <ℤ first_overflow
    → (pos 0 -ℤ pos 2472326 ≤ℤ days) × (days ≤ℤ pos 534398279)
in_range t days s p h k =
    let parts = mul_parts days 86400 in
    let sum = +ℤ_parts (days *ℤ pos 86400) (pos s) in
    let above = ap pos_part p.whole in
    let below = ap neg_part p.whole in
    let s_below = p.below in
    (
      omega (int_laws, parts, sum, above, below, s_below),
      omega (int_laws, parts, sum, above, below, s_below),
    )

seconds_since_1970 :
    (days : ℤ) (s q : ℕ)
    → days +ℤ pos 2440588 ≡ pos q -ℤ pos 32044
    → days_of q *ℤ pos 86400 +ℤ pos (second_of_day (s / 60 / 60) (s / 60 % 60) (s % 60))
      ≡ days *ℤ pos 86400 +ℤ pos s
seconds_since_1970 days s q e = ap₂ (λ d n. d *ℤ pos 86400 +ℤ pos n) day (omega arith)
  where
    day : days_of q ≡ days
    day = omega (int_laws, ap pos_part e, ap neg_part e)

-- From January 1st of the year -4799 up to the end of the day that is 534398279 days after January
-- 1st of 1970, no int overflows, and the seconds that `from_utc_time` counts for the date and time that
-- `to_utc_time` finds are those that it was given.
pub from_utc_time-to_utc_time :
    (t : ℤ) → first_moment ≤ℤ t → t <ℤ first_overflow → (to_utc_time t >>= from_utc_time) ≡ some t
from_utc_time-to_utc_time t h k =
    let (days, s, p) = divide_day-IsMoment t in
    let (low, high) = in_range t days s p h k in
    let (first, last, count) = day_of-count days low high in
    let q = day_of days in
    let (y, m, d, v, found, day) = date-year_month_day q first last in
    let below = p.below in
    let o = one_part t in
    let split : split_day t ≡ some (days, pos s) =
      split_day-divide_day t (omega (int_laws, k, o)) (omega (int_laws, h, o)) ∙ ap some p.parts in
    rw
      (
        break_time-civil t days s q y m d split count last found,
        from_utc_time-civil y m d (s / 60 / 60) (s / 60 % 60) (s % 60) q day last (omega arith)
            (omega arith) (omega arith),
      )
      (ap some (seconds_since_1970 days s q count ∙ sym p.whole))

-- The moment that a date and a time stand for.
moment : ℕ → ℕ → ℤ
moment q n = days_of q *ℤ pos 86400 +ℤ pos n

split_moment :
    (q n : ℕ) → q ≤ 536870911 → n < 86400 → split_day (moment q n) ≡ some (days_of q, pos n)
unfolding moment
split_moment q n k h =
    let parts = mul_parts (days_of q) 86400 in
    let o = one_part (days_of q) in
    let sum = one_part (moment q n) in
    split_day-divide_day (moment q n) (omega (int_laws, parts, o, sum))
      (omega (int_laws, parts, o, sum))
    ∙ ap some (divide_day_whole (days_of q) n h)

-- For a date of the calendar from the year -4799 to 1464200 with a time of the day, no int overflows,
-- and `to_utc_time` finds the date and the time again from the seconds that `from_utc_time` counts.
pub to_utc_time-from_utc_time :
    (y m d h min s : ℕ)
    → IsDate y m d
    → y ≤ 1469000
    → h < 24
    → min < 60
    → s < 60
    → (from_utc_time (civil_time y m d h min s) >>= to_utc_time) ≡ some (civil_time y m d h min s)
unfolding moment
to_utc_time-from_utc_time y m d h min s v k hh hm hs =
    let q = day_count y m d in
    let n = second_of_day h min s in
    let last : q ≤ 536870911 = day_count_bound y m d v k in
    let found : year_month_day (count_date q) ≡ some (civil y m d) =
      year_month_day-count q last ∙ ap some (count_civil-day_count y m d v) in
    let hour : n / 60 / 60 ≡ h = omega arith in
    let minute : n / 60 % 60 ≡ min = omega arith in
    let second : n % 60 ≡ s = omega arith in
    let count : days_of q +ℤ pos 2440588 ≡ pos q -ℤ pos 32044 = forth (pos q -ℤ pos 32044) in
    rw
      (
        from_utc_time-civil y m d h min s q (date-count y m d v (omega arith)) last hh hm hs,
        break_time-civil (moment q n) (days_of q) n q y m d (split_moment q n last (omega arith))
            count last found,
        hour,
        minute,
        second,
      )
      refl
  where
    forth : (a : ℤ) → a -ℤ pos 2440588 +ℤ pos 2440588 ≡ a
    forth a = omega int_laws
