-- ===== src/Date/Bounds.antt =====
-- The values on the way in base/Date.cc are ints.
use libanet.Common.{ℕ, ◌+◌, ◌-◌, ◌*◌, ◌/◌, ◌≤◌, ◌≡◌, arith}
use libanet.Common.Int.{pos, ◌+ℤ◌, ◌-ℤ◌, pos-add, pos-sub, pos-mul, int_laws}
use libanet.Common.Ints.{int_max, IsInt, AllInts, one_part}
use libanet.Date.{julian_day_number_ints, year_month_day_ints}
use libanet.Date.Days.{
  century, century_day, century_year, year_day, year_month, century_day_range, century_year_range,
}
use libanet.Date.Exact.{add_year}
use libanet.Date.Calendar.{IsDate, closes, march_month}

infixr 20 ◌&◌
-- The next of the ints, and the rest.
◌&◌ : {A B : Type 0} → A → B → A × B
p & q = (p, q)

small : {n : ℕ} → n ≤ int_max → IsInt (pos n)
small h = (h, omega arith)

pub difference : (a b : ℕ) → a ≤ int_max → b ≤ int_max → IsInt (pos a -ℤ pos b)
difference a b h k = omega (int_laws, one_part (pos a -ℤ pos b))

shift : (n k : ℕ) → pos n -ℤ pos k +ℤ pos k ≡ pos n
shift n k = omega int_laws

pub day_range : (y m d : ℕ) → IsDate y m d → d ≤ 31
day_range y m d v = ground arith

-- The intermediate values are ints up to the year 4995200.
pub julian_day_number_ints-AllInts :
    (y m d : ℕ)
    → IsDate y m d
    → y ≤ 5000000
    → AllInts (julian_day_number_ints (pos y -ℤ pos 4800) (pos m) (pos d))
unfolding julian_day_number_ints
julian_day_number_ints-AllInts y m d v h =
    let last = day_range y m d v in
    let a : closes m ≤ 1 = omega arith in
    let k : march_month m ≤ 11 = omega arith in
    let low : y - closes m ≤ 5000000 = omega arith in
    let before = (153 * march_month m + 2) / 5 in
    let days = d + before + (y - closes m) * 365 + (y - closes m) / 4 in
    let upto : days ≤ 1830000000 = omega (arith, k, last, low) in
    (rw
      (
        pos-sub 14 m (omega arith),
        shift y 4800,
        pos-sub y (closes m) (omega arith),
        pos-mul 12 (closes m),
        pos-add m (12 * closes m),
        pos-sub (m + 12 * closes m) 3 (omega arith),
        pos-mul 153 (march_month m),
        pos-add (153 * march_month m) 2,
        pos-mul (y - closes m) 365,
        pos-add d before,
        pos-add (d + before) ((y - closes m) * 365),
        pos-add (d + before + (y - closes m) * 365) ((y - closes m) / 4),
        pos-sub days ((y - closes m) / 100) (omega arith),
        pos-add (days - (y - closes m) / 100) ((y - closes m) / 400),
      )
      (small (omega arith)
        & small (omega arith)
        & small (omega arith)
        & small (omega arith)
        & small (omega arith)
        & small (omega arith)
        & small (omega arith)
        & small (omega arith)
        & small (omega arith)
        & small (omega arith)
        & small (omega arith)
        & small (omega arith)
        & small (omega arith)
        & small (omega arith)
        & difference (days - (y - closes m) / 100 + (y - closes m) / 400) 32045 (omega arith)
            (omega arith)
        & tt))

-- And for day numbers up to 536838867.
pub year_month_day_ints-AllInts :
    (q : ℕ) → q ≤ 536870911 → AllInts (year_month_day_ints (pos q -ℤ pos 32044))
unfolding year_month_day_ints
year_month_day_ints-AllInts q h =
    let first : century q ≤ 14700 = omega arith in
    let range = century_year_range q in
    let days = century_day_range q in
    let in_century : century_day q ≤ 36524 = omega (arith, days) in
    let in_year : year_day q ≤ 365 = omega (arith, range) in
    let in_month : year_month q ≤ 11 = omega (arith, in_year) in
    (rw
      (
        shift q 32044,
        pos-mul 4 q,
        pos-add (4 * q) 3,
        pos-mul (century q) 146097,
        pos-sub q (century q * 146097 / 4) (omega arith),
        pos-mul 4 (century_day q),
        pos-add (4 * century_day q) 3,
        pos-mul 1461 (century_year q),
        pos-sub (century_day q) (1461 * century_year q / 4) (omega arith),
        pos-mul 5 (year_day q),
        pos-add (5 * year_day q) 2,
        pos-mul 153 (year_month q),
        pos-add (153 * year_month q) 2,
        pos-sub (year_day q) ((153 * year_month q + 2) / 5) (omega arith),
        pos-add (year_day q - (153 * year_month q + 2) / 5) 1,
        pos-mul 12 (year_month q / 10),
        pos-add (year_month q) 3,
        pos-sub (year_month q + 3) (12 * (year_month q / 10)) (omega arith),
        pos-mul (century q) 100,
        pos-add (century q * 100) (century_year q),
        add_year (century q * 100 + century_year q) (year_month q / 10),
      )
      (small (omega arith)
        & small (omega arith)
        & small (omega arith)
        & small (omega arith)
        & small (omega (arith, in_century))
        & small (omega (arith, in_century))
        & small (omega (arith, in_century))
        & small (omega (arith, range))
        & small (omega (arith, in_year))
        & small (omega (arith, in_year))
        & small (omega (arith, in_year))
        & small (omega (arith, in_month))
        & small (omega (arith, in_month))
        & small (omega (arith, in_year))
        & small (omega (arith, in_year))
        & small (omega (arith, in_month))
        & small (omega (arith, in_month))
        & small (omega (arith, in_month))
        & small (omega (arith, first))
        & small (omega (arith, first, range))
        & difference (century q * 100 + century_year q) 4800 (omega (arith, first, range))
            (omega arith)
        & difference (century q * 100 + century_year q + year_month q / 10) 4800
            (omega (arith, first, range, in_month)) (omega arith)
        & tt))
