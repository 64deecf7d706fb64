-- ===== src/Timestamp/Tests.antt =====
-- Two times, a second apart.
use libanet.Common.{◌≡◌, true, arith}
use libanet.Common.Int.{pos}
use libanet.Timestamp.{seconds_since_epoch, from_unix_time, ltb_timestamp}
use libanet.Timestamp.UnixTime.{seconds_since_epoch-from_unix_time}

at_100_seconds :
    (seconds_since_epoch (from_unix_time (pos 100) (pos 999999)) ≡ pos 100)
    × (ltb_timestamp (from_unix_time (pos 100) (pos 999999)) (from_unix_time (pos 101) (pos 0))
        ≡ true)
at_100_seconds = seconds_since_epoch-from_unix_time 100 101 999999 0 (omega arith) (omega arith)
