-- ===== src/TimeZone.antt =====
-- base/TimeZone.h and base/TimeZone.cc: seconds since 1970 against dates with a time of the day, and
-- the local time that a time zone has at a moment. `none` is an assert that fails, an element behind
-- the end of a vector, or a result that an int of 32 bits does not hold; an int64_t has no bounds. The files of
-- time zones, their abbreviations and the text of a time are not modelled.
mod SplitDay
mod UtcTime
mod Transitions
mod Tests
use libanet.Common.{
  ℕ, zero, suc, ◌+◌, ◌-◌, ◌*◌, ◌/◌, ◌%◌, Bool, true, false, not, ◌&&◌, Option, none, some, List, [],
  ◌∷◌, ◌++◌, length, get_elem?, ltb, leb, ◌==◌, if◌then◌else◌,
}
use libanet.Common.Ints.{is_int, all_ints, narrow_int}
use libanet.Common.Int.{ℤ, pos, negsuc, ◌+ℤ◌, ◌-ℤ◌, ◌*ℤ◌, ◌/ℤ◌, ◌%ℤ◌, ltb_ℤ, pos_part}
use libanet.Common.Options.{◌>>=◌, ◌>>◌, check}
use libanet.Date.{Date, YearMonthDay, date, year_month_day, julian_day_of_1970_01_01}

abbrev pub seconds_per_day : ℕ
seconds_per_day = 86400

pub record DateTime : Type 0 where
  pub year : ℤ
  pub month : ℤ
  pub day : ℤ
  pub hour : ℤ
  pub minute : ℤ
  pub second : ℤ

-- What fillHMS writes into a DateTime. The seconds are unsigned.
pub record Hms : Type 0 where
  pub hour : ℕ
  pub minute : ℕ
  pub second : ℕ

unfoldable pub fill_hms : ℕ → Hms
fill_hms seconds = record {
  hour = seconds / 60 / 60;
  minute = seconds / 60 % 60;
  second = seconds % 60;
}

-- The days and the seconds of BreakTime, after its correction for a time before 1970.
unfoldable pub split_day : ℤ → Option (ℤ × ℤ)
split_day t =
    let seconds = t %ℤ seconds_per_day in
    let days = narrow_int (t /ℤ seconds_per_day) in
    if ltb_ℤ seconds (pos 0)
    then (check (is_int (days -ℤ pos 1)) >> some (days -ℤ pos 1, seconds +ℤ pos seconds_per_day))
    else some (days, seconds)

-- detail::BreakTime. The seconds that are passed on are not negative.
unfoldable pub break_time : ℤ → Option DateTime
unfolding split_day fill_hms
break_time t = do
  parts ← split_day t
  let hms = fill_hms (pos_part parts.1)
  check (is_int (parts.0 +ℤ julian_day_of_1970_01_01))
  ymd ← year_month_day (record { julian_day_number = parts.0 +ℤ julian_day_of_1970_01_01 })
  some (record {
    year = ymd.year;
    month = ymd.month;
    day = ymd.day;
    hour = pos hms.hour;
    minute = pos hms.minute;
    second = pos hms.second;
  })

unfoldable pub to_utc_time : ℤ → Option DateTime
unfolding break_time
to_utc_time seconds_since_epoch = break_time seconds_since_epoch

unfoldable pub from_utc_time : DateTime → Option ℤ
from_utc_time dt = do
  day ← date dt.year dt.month dt.day
  let hours = dt.hour *ℤ pos 3600
  let minutes = dt.minute *ℤ pos 60
  let seconds_in_day = hours +ℤ minutes +ℤ dt.second
  check (all_ints (hours ∷ minutes ∷ (hours +ℤ minutes) ∷ seconds_in_day ∷ []))
  let days = day.julian_day_number -ℤ julian_day_of_1970_01_01
  check (is_int days)
  some (days *ℤ pos seconds_per_day +ℤ seconds_in_day)

pub record Transition : Type 0 where
  pub utc_time : ℤ
  pub local_time : ℤ
  pub local_time_idx : ℕ

pub record LocalTime : Type 0 where
  pub utc_offset : ℤ
  pub is_dst : Bool
  pub desig_idx : ℕ

-- TimeZone::Data
pub record Data : Type 0 where
  pub transitions : List Transition
  pub local_times : List LocalTime

unfoldable pub add_local_time : Data → ℤ → Bool → ℕ → Data
add_local_time d utc_offset is_dst desig_idx =
    let lt : LocalTime = record {
      utc_offset = utc_offset;
      is_dst = is_dst;
      desig_idx = desig_idx;
    } in
    record d { local_times = d.local_times ++ (lt ∷ []) }

unfoldable pub add_transition : Data → ℤ → ℕ → Option Data
add_transition d utc_time local_time_idx = do
  lt ← get_elem? d.local_times local_time_idx
  let tr : Transition = record {
    utc_time = utc_time;
    local_time = utc_time +ℤ lt.utc_offset;
    local_time_idx = local_time_idx;
  }
  some (record d { transitions = d.transitions ++ (tr ∷ []) })

-- TimeZone(int, const char *)
unfoldable pub fixed_zone : ℤ → Data
unfolding add_local_time
fixed_zone east_of_utc =
    add_local_time (record { transitions = []; local_times = [] }) east_of_utc false 0

unfoldable pub utc : Data
unfolding fixed_zone
utc = fixed_zone (pos 0)

-- std::upper_bound with CompareUtcTime, on transitions that are sorted by their UTC time, as the
-- standard requires: how many of them are no later. On others the standard leaves the result open.
unfoldable pub upper_bound : ℤ → List Transition → ℕ
upper_bound t [] = 0
upper_bound t (x ∷ xs) = let rest = upper_bound t xs in if ltb_ℤ t x.utc_time then 0 else suc rest

-- The local time of the transition at an index.
unfoldable pub local_time_at : Data → ℕ → Option LocalTime
local_time_at d i = get_elem? d.transitions i >>= λ tr. get_elem? d.local_times tr.local_time_idx

-- Before the first of the transitions, by the time that is compared.
unfoldable pub is_before_all : (Transition → ℤ) → ℤ → List Transition → Bool
is_before_all time t [] = true
is_before_all time t (x ∷ xs) = ltb_ℤ t (time x)

-- findLocalTime(int64_t)
unfoldable pub find_local_time : Data → ℤ → Option LocalTime
find_local_time d t =
    if is_before_all (λ tr. tr.utc_time) t d.transitions
    then get_elem? d.local_times 0
    else (let k = upper_bound t d.transitions in
        check (not (k == 0))
        >> (if ltb k (length d.transitions)
            then local_time_at d (k - 1)
            else local_time_at d (length d.transitions - 1)))

-- toLocalTime, and the offset that it hands out
unfoldable pub to_local_time : Data → ℤ → Option (DateTime × ℤ)
unfolding find_local_time break_time
to_local_time d seconds = do
  local ← find_local_time d seconds
  local_time ← break_time (seconds +ℤ local.utc_offset)
  some (local_time, local.utc_offset)

-- The last second of the local time that holds before a transition.
unfoldable pub prior_second : Data → ℤ → ℕ → Option ℤ
prior_second d utc_time prior_idx = do
  lt ← get_elem? d.local_times prior_idx
  some (utc_time -ℤ pos 1 +ℤ lt.utc_offset)

abbrev pub pick : Bool → ℕ → ℕ → ℕ
pick post_transition after before = if post_transition then after else before

-- findLocalTime(const DateTime &, bool), from the transition of index `k` that upper_bound found:
-- the step back to the one before it.
unfoldable pub find_before : Data → ℤ → Bool → ℕ → ℤ → ℕ → Option LocalTime
unfolding prior_second
find_before d local_time post k earlier prior_idx = do
  tr ← get_elem? d.transitions (k - 1)
  let at_first = k - 1 == 0
  prior ←
      (if at_first
        then some prior_idx
        else get_elem? d.transitions (k - 2) >>= λ x. some x.local_time_idx)
  second ← (if at_first then some earlier else prior_second d tr.utc_time prior)
  get_elem? d.local_times
      (if ltb_ℤ second local_time then tr.local_time_idx else pick post tr.local_time_idx prior)

unfoldable pub find_between : Data → ℤ → Bool → ℕ → Option LocalTime
unfolding prior_second find_before
find_between d local_time post k = do
  tr ← get_elem? d.transitions k
  prior ← get_elem? d.transitions (k - 1)
  second ← prior_second d tr.utc_time prior.local_time_idx
  let back = find_before d local_time post k second prior.local_time_idx
  (if ltb_ℤ second local_time
      then get_elem? d.local_times (pick post tr.local_time_idx prior.local_time_idx)
      else back)

-- The sentry has 0 for its UTC time, by which CompareUtcTime compares.
unfoldable pub find_local_time_of : Data → DateTime → Bool → Option LocalTime
unfolding find_between from_utc_time
find_local_time_of d lt post = do
  local_time ← from_utc_time lt
  let k = upper_bound (pos 0) d.transitions
  let between = find_between d local_time post k
  (if is_before_all (λ tr. tr.local_time) local_time d.transitions
      then get_elem? d.local_times 0
      else (check (not (k == 0))
          >> (if k == length d.transitions
              then local_time_at d (length d.transitions - 1)
              else between)))

unfoldable pub from_local_time : Data → DateTime → Bool → Option ℤ
unfolding find_local_time_of from_utc_time
from_local_time d local_time post = do
  local ← find_local_time_of d local_time post
  local_seconds ← from_utc_time local_time
  some (local_seconds -ℤ local.utc_offset)
