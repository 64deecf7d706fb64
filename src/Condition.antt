-- ===== src/Condition.antt =====
-- base/Condition.h and base/Condition.cc: the threads that wait on a condition. A thread that `wait`
-- has put to sleep runs again after a notification, or for no reason as POSIX allows, and then looks
-- at the queue or the count again.
pub mod Counts
use libanet.Common.{ℕ, zero, suc, ◌+◌}

pub record Condition : Type 0 where
  pub sleeping : ℕ
  pub woken : ℕ

abbrev pub wait : Condition → Condition
wait c = record c { sleeping = suc c.sleeping }

abbrev wake : ℕ → ℕ → Condition
wake zero woken = record { sleeping = zero; woken = woken }
wake (suc sleeping) woken = record { sleeping = sleeping; woken = suc woken }

abbrev pub notify : Condition → Condition
notify c = wake c.sleeping c.woken

abbrev pub notify_all : Condition → Condition
notify_all c = record { sleeping = zero; woken = c.sleeping + c.woken }
