-- ===== src/TimeZone/Tests.antt =====
-- Times and a time zone, and the theorems at concrete inputs.
use libanet.Common.{ℕ, ◌≡◌, refl, Bool, true, false, none, some, [], ◌∷◌, get_elem?, arith}
use libanet.Common.Int.{pos, negsuc, ◌-ℤ◌, ◌+ℤ◌, ◌*ℤ◌}
use libanet.Common.Options.{◌>>=◌}
use libanet.Date.{
  date, year_month_day, julian_day_of_1970_01_01, get_julian_day_number, get_year_month_day,
}
use libanet.TimeZone.{
  DateTime, Transition, LocalTime, Data, to_utc_time, from_utc_time, find_local_time,
  from_local_time, to_local_time, add_local_time, add_transition, seconds_per_day,
}
use libanet.TimeZone.UtcTime.{
  first_overflow, civil_time, from_utc_time-to_utc_time, to_utc_time-from_utc_time,
}
use libanet.TimeZone.Transitions.{
  Sorted, sorted_from, next_transition, no_transition, future, find_local_time-current,
  from_local_time_later,
}

-- The last second before 1970
new_year :
    to_utc_time (negsuc 0)
    ≡ some record {
      year = pos 1969;
      month = pos 12;
      day = pos 31;
      hour = pos 23;
      minute = pos 59;
      second = pos 59;
    }
unfolding to_utc_time year_month_day julian_day_of_1970_01_01 get_year_month_day ◌-ℤ◌ ◌+ℤ◌ ◌*ℤ◌
    libanet.Common.Ints.narrow_int
new_year = refl

-- More days than an int holds, of which the conversion leaves what overflows in base/Date.cc; and the
-- first day that overflows there.
far :
    ((to_utc_time (pos 1000000000000000) >>= from_utc_time) ≡ none)
    × (to_utc_time first_overflow ≡ none)
unfolding to_utc_time from_utc_time year_month_day julian_day_of_1970_01_01 get_year_month_day date
    get_julian_day_number ◌-ℤ◌ ◌+ℤ◌ ◌*ℤ◌ libanet.Common.Ints.narrow_int
far = (refl, refl)

from_utc_time-to_utc_time_example :
    (to_utc_time (negsuc 86400) >>= from_utc_time) ≡ some (negsuc 86400)
unfolding ◌-ℤ◌
from_utc_time-to_utc_time_example =
    from_utc_time-to_utc_time (negsuc 86400) (omega arith) (omega arith)

to_utc_time-from_utc_time_example :
    (from_utc_time (civil_time 6816 2 29 12 30 59) >>= to_utc_time)
    ≡ some (civil_time 6816 2 29 12 30 59)
to_utc_time-from_utc_time_example =
    to_utc_time-from_utc_time 6816 2 29 12 30 59
      (record {
        year_in = omega arith;
        month_in = (omega arith, omega arith);
        day_in = (omega arith, omega arith);
      })
      (omega arith) (omega arith) (omega arith) (omega arith)

abbrev transition : ℕ → ℕ → ℕ → Transition
transition utc_time local_time idx = record {
  utc_time = pos utc_time;
  local_time = pos local_time;
  local_time_idx = idx;
}

abbrev local_time : ℕ → Bool → ℕ → LocalTime
local_time offset dst idx = record { utc_offset = pos offset; is_dst = dst; desig_idx = idx }

-- An hour ahead, and two hours in the summer.
abbrev zone : Data
zone = record {
  transitions = transition 1000 8200 1 ∷ transition 20000 23600 0 ∷ [];
  local_times = local_time 3600 false 0 ∷ local_time 7200 true 4 ∷ [];
}

zone-Sorted : Sorted zone.transitions
zone-Sorted = sorted_from (next_transition (omega arith) no_transition)

summer : find_local_time zone (pos 5000) ≡ some (local_time 7200 true 4)
unfolding find_local_time libanet.TimeZone.is_before_all libanet.TimeZone.upper_bound
    libanet.TimeZone.local_time_at
summer = refl

find_local_time-current_example : find_local_time zone (pos 5000) ≡ get_elem? zone.local_times 1
find_local_time-current_example =
    find_local_time-current zone (pos 5000) [] (transition 20000 23600 0 ∷ [])
      (transition 1000 8200 1) refl zone-Sorted (omega arith) (future (omega arith))

-- January 1st of 1970, at three o'clock
from_local_time_later_example : from_local_time zone (civil_time 6770 1 1 3 0 0) false ≡ none
unfolding from_utc_time date get_julian_day_number julian_day_of_1970_01_01 ◌-ℤ◌ ◌+ℤ◌ ◌*ℤ◌
from_local_time_later_example =
    from_local_time_later zone (civil_time 6770 1 1 3 0 0) (pos 10800) false
      (transition 1000 8200 1) (transition 20000 23600 0 ∷ []) refl zone-Sorted (omega arith) refl
      (omega arith)
