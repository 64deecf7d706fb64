-- ===== src/BoundedBlockingQueue.antt =====
-- base/BoundedBlockingQueue.h: a queue with room for so many elements. The threads that wait for room
-- are counted; one that runs again brings its element with the event.
mod Runs
mod Tests
use libanet.Common.{
  ℕ, zero, suc, Bool, Option, none, some, List, [], ◌∷◌, ◌++◌, length, leb, if◌then◌else◌,
}
use libanet.Condition.{Condition, wait, notify}

pub record BoundedBlockingQueue (A : Type 0) : Type 0 where
  pub not_empty : Condition
  pub not_full : Condition
  pub max_size : ℕ
  pub queue : List A

-- A step's new state, what it puts in and what it hands out.
pub record Outcome (A : Type 0) : Type 0 where
  pub state : BoundedBlockingQueue A
  pub ins : List A
  pub outs : List A

-- What the threads do: a call, that a thread runs again, or that a sleeper wakes for no reason, as
-- POSIX allows.
pub data Event (A : Type 0) : Type 0 where
  put resume_put : A → Event A
  take resume_take : Event A
  wakes_put wakes_take : Event A

-- boost::circular_buffer::full
abbrev pub is_full : {A : Type 0} → ℕ → List A → Bool
is_full max_size xs = leb max_size (length xs)

-- The loop of `put` from the point where it looks at the queue.
unfoldable pub look_put : {A : Type 0} → BoundedBlockingQueue A → A → Outcome A
look_put q x =
    if is_full q.max_size q.queue
    then record { state = record q { not_full = wait q.not_full }; ins = []; outs = [] }
    else record {
      state = record q { queue = q.queue ++ (x ∷ []); not_empty = notify q.not_empty };
      ins = x ∷ [];
      outs = [];
    }

-- The loop of `take` from the point where it looks at the queue.
unfoldable pub look_take : {A : Type 0} → BoundedBlockingQueue A → List A → Outcome A
look_take q [] = record { state = record q { not_empty = wait q.not_empty }; ins = []; outs = [] }
look_take q (x ∷ xs) = record {
  state = record q { queue = xs; not_full = notify q.not_full };
  ins = [];
  outs = x ∷ [];
}

unfoldable pub again_put : {A : Type 0} → BoundedBlockingQueue A → A → ℕ → Option (Outcome A)
unfolding look_put
again_put q x zero = none
again_put q x (suc woken) =
    some (
      look_put (record q { not_full = record { sleeping = q.not_full.sleeping; woken = woken } }) x)

unfoldable pub again_take : {A : Type 0} → BoundedBlockingQueue A → ℕ → Option (Outcome A)
unfolding look_take
again_take q zero = none
again_take q (suc woken) = some (
    look_take (record q { not_empty = record { sleeping = q.not_empty.sleeping; woken = woken } })
      q.queue)

-- A thread that waits for room wakes without a notification.
unfoldable pub wake_put : {A : Type 0} → BoundedBlockingQueue A → ℕ → Option (Outcome A)
wake_put q zero = none
wake_put q (suc sleeping) = some (record {
  state = record q { not_full = record { sleeping = sleeping; woken = suc q.not_full.woken } };
  ins = [];
  outs = [];
})

-- And one that waits for an element.
unfoldable pub wake_take : {A : Type 0} → BoundedBlockingQueue A → ℕ → Option (Outcome A)
wake_take q zero = none
wake_take q (suc sleeping) = some (record {
  state = record q { not_empty = record { sleeping = sleeping; woken = suc q.not_empty.woken } };
  ins = [];
  outs = [];
})

-- `none` if no thread can make the step.
unfoldable pub step : {A : Type 0} → BoundedBlockingQueue A → Event A → Option (Outcome A)
unfolding look_put look_take again_put again_take wake_put wake_take
step q (put x) = some (look_put q x)
step q (resume_put x) = again_put q x q.not_full.woken
step q take = some (look_take q q.queue)
step q resume_take = again_take q q.not_empty.woken
step q wakes_put = wake_put q q.not_full.sleeping
step q wakes_take = wake_take q q.not_empty.sleeping
