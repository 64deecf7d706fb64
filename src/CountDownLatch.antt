-- ===== src/CountDownLatch.antt =====
-- base/CountDownLatch.h and base/CountDownLatch.cc, with the threads that wait. An operation holds the
-- mutex from beginning to end, or up to its wait.
mod Waiters
mod Tests
use libanet.Common.{ℕ, zero, suc, Bool, Option, none, some, if◌then◌else◌}
use libanet.Common.Int.{ℤ, pos, negsuc, ◌-ℤ◌, ltb_ℤ}
use libanet.Condition.{Condition, wait, notify}

pub record CountDownLatch : Type 0 where
  pub condition : Condition
  pub count : ℤ

unfoldable pub create : ℤ → CountDownLatch
create count = record { condition = record { sleeping = 0; woken = 0 }; count = count }

abbrev pub is_zero_count : ℤ → Bool
is_zero_count (pos zero) = Bool.true
is_zero_count (pos (suc n)) = Bool.false
is_zero_count (negsuc n) = Bool.false

unfoldable pub count_down : CountDownLatch → CountDownLatch
count_down l =
    let c = l.count -ℤ pos 1 in
    record { condition = if is_zero_count c then notify l.condition else l.condition; count = c }

-- The loop of `wait` from the point where a thread looks at the count: it sleeps or returns.
unfoldable pub look : CountDownLatch → CountDownLatch
look l = if ltb_ℤ (pos 0) l.count then record l { condition = wait l.condition } else l

unfoldable pub look_again : CountDownLatch → ℕ → Option CountDownLatch
unfolding look
look_again l zero = none
look_again l (suc woken) =
    some (look (record l { condition = record { sleeping = l.condition.sleeping; woken = woken } }))

-- What threads do: a call, or that a woken thread runs again.
pub data Event : Type 0 where
  counts waits resumes : Event

-- `none` if no thread can make the step.
unfoldable pub step : CountDownLatch → Event → Option CountDownLatch
unfolding count_down look look_again
step l counts = some (count_down l)
step l waits = some (look l)
step l resumes = look_again l l.condition.woken
