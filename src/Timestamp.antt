-- ===== src/Timestamp.antt =====
-- base/Timestamp.h: microseconds since 1970. An int64_t is an integer without bounds. What computes
-- with doubles, formats text or reads the clock is not modelled.
mod UnixTime
mod Tests
use libanet.Common.{ℕ, Bool, ◌==◌, ◌+◌}
use libanet.Common.Int.{ℤ, pos, negsuc, ◌+ℤ◌, ◌*ℤ◌, ◌/ℤ◌, ltb_ℤ, pos_part, neg_part}

pub record Timestamp : Type 0 where
  pub micro_seconds_since_epoch : ℤ

abbrev pub micro_seconds_per_second : ℕ
micro_seconds_per_second = 1000000

abbrev pub valid : Timestamp → Bool
valid t = ltb_ℤ (pos 0) t.micro_seconds_since_epoch

abbrev pub invalid : Timestamp
invalid = record { micro_seconds_since_epoch = pos 0 }

unfoldable pub seconds_since_epoch : Timestamp → ℤ
seconds_since_epoch t = t.micro_seconds_since_epoch /ℤ micro_seconds_per_second

unfoldable pub from_unix_time : ℤ → ℤ → Timestamp
from_unix_time t microseconds = record {
  micro_seconds_since_epoch = t *ℤ pos micro_seconds_per_second +ℤ microseconds;
}

-- operator<
unfoldable pub ltb_timestamp : Timestamp → Timestamp → Bool
ltb_timestamp lhs rhs = ltb_ℤ lhs.micro_seconds_since_epoch rhs.micro_seconds_since_epoch

-- operator==
abbrev pub eq_timestamp : Timestamp → Timestamp → Bool
eq_timestamp lhs rhs =
    pos_part lhs.micro_seconds_since_epoch + neg_part rhs.micro_seconds_since_epoch
    == pos_part rhs.micro_seconds_since_epoch + neg_part lhs.micro_seconds_since_epoch
