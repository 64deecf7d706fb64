-- ===== src/BlockingQueue.antt =====
-- base/BlockingQueue.h: a queue of which threads take. An operation holds the mutex from beginning to
-- end, or up to its wait, so a run of threads is a sequence of steps.
mod Runs
mod Tests
use libanet.Common.{ℕ, zero, suc, Option, none, some, List, [], ◌∷◌, ◌++◌}
use libanet.Condition.{Condition, wait, notify}

pub record BlockingQueue (A : Type 0) : Type 0 where
  pub not_empty : Condition
  pub queue : List A

-- What the threads do: a call, or that a sleeper runs again.
pub data Event (A : Type 0) : Type 0 where
  put : A → Event A
  take drain : Event A
  resume : Event A
  wakes : Event A

-- The loop of `take` from the point where it looks at the queue, and what it returns, if anything.
unfoldable pub look : {A : Type 0} → BlockingQueue A → List A → BlockingQueue A × List A
look q [] = (record q { not_empty = wait q.not_empty }, [])
look q (x ∷ xs) = (record q { queue = xs }, x ∷ [])

unfoldable pub put_back : {A : Type 0} → BlockingQueue A → A → BlockingQueue A
put_back q x = record q { queue = q.queue ++ (x ∷ []); not_empty = notify q.not_empty }

unfoldable pub drain_all : {A : Type 0} → BlockingQueue A → BlockingQueue A × List A
drain_all q = (record q { queue = [] }, q.queue)

-- A woken thread holds the mutex again.
unfoldable pub look_again : {A : Type 0} → BlockingQueue A → ℕ → Option (BlockingQueue A × List A)
unfolding look
look_again q zero = none
look_again q (suc woken) = some (
    look (record q { not_empty = record { sleeping = q.not_empty.sleeping; woken = woken } })
      q.queue)

abbrev wake_one : {A : Type 0} → BlockingQueue A → ℕ → Option (BlockingQueue A × List A)
wake_one q zero = none
wake_one q (suc sleeping) =
    some
      (record q { not_empty = record { sleeping = sleeping; woken = suc q.not_empty.woken } }, [])

-- A step and what it hands out; `none` if no thread can make it.
unfoldable pub step : {A : Type 0} → BlockingQueue A → Event A → Option (BlockingQueue A × List A)
unfolding look put_back drain_all look_again
step q (put x) = some (put_back q x, [])
step q take = some (look q q.queue)
step q drain = some (drain_all q)
step q resume = look_again q q.not_empty.woken
step q wakes = wake_one q q.not_empty.sleeping
