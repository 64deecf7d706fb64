-- ===== src/Date/Days.antt =====
-- The arithmetic of base/Date.cc on natural numbers: a year is counted from -4800, and the count of
-- days starts with March, so that a leap day comes last.
use libanet.Common.{ℕ, ◌+◌, ◌-◌, ◌*◌, ◌/◌, ◌%◌, ◌≤◌, ◌<◌, ◌≡◌, ◌⊎◌, ◌≢◌, arith}

-- The year from March on that ends on a leap day.
abbrev pub EndsLeap : ℕ → Type 0
EndsLeap y = (y % 4 ≡ 3) × ((y % 100 ≢ 99) ⊎ (y % 400 ≡ 399))

-- Days before day `d` of month `m`, counted from March 1st; March is month 0.
abbrev pub days_before : ℕ → ℕ → ℕ
days_before m d = (153 * m + 2) / 5 + (d - 1)

-- The days before year `y`, from March to March.
abbrev pub days_to_year : ℕ → ℕ
days_to_year y = y * 365 + y / 4 - y / 100 + y / 400

-- The parts into which the code takes a day count: the century, the day of it, the year in it, the
-- day of that, and the month.
abbrev pub century : ℕ → ℕ
century q = (4 * q + 3) / 146097

abbrev pub century_day : ℕ → ℕ
century_day q = q - century q * 146097 / 4

abbrev pub century_year : ℕ → ℕ
century_year q = (4 * century_day q + 3) / 1461

abbrev pub year_day : ℕ → ℕ
year_day q = century_day q - 1461 * century_year q / 4

abbrev pub year_month : ℕ → ℕ
year_month q = (5 * year_day q + 2) / 153

abbrev pub month_day : ℕ → ℕ
month_day q = year_day q - (153 * year_month q + 2) / 5 + 1

days_to_year-split :
    (y : ℕ) → days_to_year y ≡ 36524 * (y / 100) + y / 100 / 4 + (365 * (y % 100) + y % 100 / 4)
days_to_year-split y = omega arith

-- The century of a day.
century_of :
    (c n : ℕ)
    → n ≤ 36524
    → ((n ≤ 36523) ⊎ (c % 4 ≡ 3))
    → (4 * (36524 * c + c / 4 + n) + 3) / 146097 ≡ c
century_of c n h k = omega arith

century_start : (c : ℕ) → c * 146097 / 4 ≡ 36524 * c + c / 4
century_start c = omega arith

year_of :
    (r e : ℕ) → e ≤ 365 → ((e ≤ 364) ⊎ (r % 4 ≡ 3)) → (4 * (365 * r + r / 4 + e) + 3) / 1461 ≡ r
year_of r e h k = omega arith

year_start : (r : ℕ) → 1461 * r / 4 ≡ 365 * r + r / 4
year_start r = omega arith

-- A day of a year that starts in March: one of 365, or the leap day that ends the year.
abbrev pub IsDayOf : ℕ → ℕ → Type 0
IsDayOf y e = (e ≤ 364) ⊎ ((e ≡ 365) × EndsLeap y)

century-days : (y e : ℕ) → IsDayOf y e → century (days_to_year y + e) ≡ y / 100
century-days y e h =
    let n = 365 * (y % 100) + y % 100 / 4 + e in
    let q : days_to_year y + e ≡ 36524 * (y / 100) + y / 100 / 4 + n =
      omega (arith, days_to_year-split y) in
    let le : n ≤ 36524 = omega arith in
    let last : (n ≤ 36523) ⊎ (y / 100 % 4 ≡ 3) = omega arith in
    rw q (century_of (y / 100) n le last)

century_day-days :
    (y e : ℕ) → IsDayOf y e → century_day (days_to_year y + e) ≡ 365 * (y % 100) + y % 100 / 4 + e
century_day-days y e h =
    rw (century-days y e h) (omega (arith, days_to_year-split y, century_start (y / 100)))

century_year-days : (y e : ℕ) → IsDayOf y e → century_year (days_to_year y + e) ≡ y % 100
century_year-days y e h =
    rw (century_day-days y e h) (year_of (y % 100) e (omega arith) (omega arith))

pub year_day-days : (y e : ℕ) → IsDayOf y e → year_day (days_to_year y + e) ≡ e
year_day-days y e h =
    rw (century_year-days y e h, century_day-days y e h) (omega (arith, year_start (y % 100)))

pub year-days :
    (y e : ℕ)
    → IsDayOf y e
    → century (days_to_year y + e) * 100 + century_year (days_to_year y + e) ≡ y
year-days y e h = rw (century_year-days y e h, century-days y e h) (omega arith)

-- Month `m` from March has the day `d`, February the 29th in every year.
abbrev pub IsMonthDay : ℕ → ℕ → Type 0
IsMonthDay m d =
    (1 ≤ d) × (m ≤ 11) × (5 * days_before m d + 2 < 153 * (m + 1)) × (days_before m d ≤ 365)

pub year_month-days :
    (y m d : ℕ)
    → IsMonthDay m d
    → IsDayOf y (days_before m d)
    → (year_month (days_to_year y + days_before m d) ≡ m)
      × (month_day (days_to_year y + days_before m d) ≡ d)
year_month-days y m d k h =
    let month : (5 * days_before m d + 2) / 153 ≡ m = omega arith in
    (
      rw (year_day-days y (days_before m d) h) month,
      rw (year_day-days y (days_before m d) h, month) (omega arith),
    )

pub century_day_range :
    (q : ℕ) → (century_day q ≤ 36523) ⊎ ((century_day q ≡ 36524) × (century q % 4 ≡ 3))
century_day_range q = omega arith

pub century_year_range :
    (q : ℕ)
    → (century_year q ≤ 99)
      × ((year_day q ≤ 364) ⊎ ((year_day q ≡ 365) × (century_year q % 4 ≡ 3)))
      × ((century_year q ≤ 98) ⊎ ((year_day q ≤ 364) ⊎ (century_day q ≡ 36524)))
century_year_range q = omega (arith, century_day_range q)

-- Every day count is a day of the year that the code finds.
pub year_day-IsDayOf : (q : ℕ) → IsDayOf (century q * 100 + century_year q) (year_day q)
year_day-IsDayOf q = ground (arith, century_day_range q, century_year_range q)

pub days-parts : (q : ℕ) → days_to_year (century q * 100 + century_year q) + year_day q ≡ q
days-parts q =
    omega (arith, century_year_range q, days_to_year-split (century q * 100 + century_year q))

-- And it is a day of the month that the code finds.
pub month_day-IsMonthDay :
    (q : ℕ)
    → IsMonthDay (year_month q) (month_day q)
      × (days_before (year_month q) (month_day q) ≡ year_day q)
month_day-IsMonthDay q = omega (arith, century_year_range q)
