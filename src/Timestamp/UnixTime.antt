-- ===== src/Timestamp/UnixTime.antt =====
-- `fromUnixTime` and `secondsSinceEpoch` in base/Timestamp.h.
use libanet.Common.{ℕ, ◌+◌, ◌*◌, ◌<◌, ◌≡◌, refl, ap, true, arith}
use libanet.Common.Int.{pos, pos-add, pos-mul}
use libanet.Timestamp.{seconds_since_epoch, from_unix_time, ltb_timestamp}

from_unix_time-pos :
    (n us : ℕ)
    → from_unix_time (pos n) (pos us)
      ≡ record { micro_seconds_since_epoch = pos (n * 1000000 + us) }
unfolding from_unix_time
from_unix_time-pos n us = rw (pos-mul n 1000000, pos-add (n * 1000000) us) refl

-- For a time from 1970 on and less than a second of microseconds, seconds_since_epoch gives back the
-- seconds, and the timestamps of later seconds are later.
pub seconds_since_epoch-from_unix_time :
    (n m us vs : ℕ)
    → us < 1000000
    → n < m
    → (seconds_since_epoch (from_unix_time (pos n) (pos us)) ≡ pos n)
      × (ltb_timestamp (from_unix_time (pos n) (pos us)) (from_unix_time (pos m) (pos vs)) ≡ true)
unfolding seconds_since_epoch ltb_timestamp
seconds_since_epoch-from_unix_time n m us vs h k =
    rw (from_unix_time-pos n us, from_unix_time-pos m vs) (ap pos (omega arith), ground arith)
