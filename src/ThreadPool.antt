-- ===== src/ThreadPool.antt =====
-- base/ThreadPool.h and base/ThreadPool.cc: the queue of tasks between the threads that call run and
-- those of the pool. A task is a number. The start of the threads and what they do with an exception
-- are not modelled.
mod Looks
mod Runs
mod Tests
use libanet.Common.{
  ℕ, zero, suc, ◌≡◌, ◌&&◌, Bool, true, false, not, List, [], ◌∷◌, ◌++◌, length, leb, ltb,
  if◌then◌else◌,
}
use libanet.Condition.{Condition, wait, notify, notify_all}

pub record ThreadPool : Type 0 where
  pub not_empty : Condition
  pub not_full : Condition
  pub max_queue_size : ℕ
  pub running : Bool
  pub queue : List ℕ

-- A step's new state, the tasks that it puts in and the tasks that it hands out.
pub record Outcome : Type 0 where
  pub state : ThreadPool
  pub ins : List ℕ
  pub outs : List ℕ

abbrev pub only : ThreadPool → Outcome
only p = record { state = p; ins = []; outs = [] }

-- isFull, whose call of assertLocked is left out: isLockedByThisThread returns nothing.
unfoldable pub is_full : ThreadPool → Bool
is_full p = ltb 0 p.max_queue_size && leb p.max_queue_size (length p.queue)

-- `run` in a pool with threads, from the point where it looks at the queue.
unfoldable pub look_run : ThreadPool → ℕ → Outcome
unfolding is_full
look_run p task =
    if is_full p && p.running
    then only (record p { not_full = wait p.not_full })
    else if not p.running
    then only p
    else record {
      state = record p { queue = p.queue ++ (task ∷ []); not_empty = notify p.not_empty };
      ins = task ∷ [];
      outs = [];
    }

-- `take` from the point where it looks at the queue
unfoldable pub look_take : ThreadPool → List ℕ → Outcome
look_take p [] = if p.running then only (record p { not_empty = wait p.not_empty }) else only p
look_take p (task ∷ tasks) =
    let p' = record p { queue = tasks } in
    record {
      state = if ltb 0 p.max_queue_size then record p' { not_full = notify p.not_full } else p';
      ins = [];
      outs = task ∷ [];
    }

-- `stop`, up to the joins
unfoldable pub stop : ThreadPool → ThreadPool
stop p = record p {
  running = false;
  not_empty = notify_all p.not_empty;
  not_full = notify_all p.not_full;
}

abbrev woken_for_room : ThreadPool → ℕ → ThreadPool
woken_for_room p n = record p { not_full = record { sleeping = p.not_full.sleeping; woken = n } }

abbrev woken_for_task : ThreadPool → ℕ → ThreadPool
woken_for_task p n = record p { not_empty = record { sleeping = p.not_empty.sleeping; woken = n } }

-- A step of any thread: a call, that a woken thread holds the mutex again, or that a thread wakes for
-- no reason.
pub data Step (p : ThreadPool) : Outcome → Type 0 where
  runs : (task : ℕ) → Step p (look_run p task)
  runs_on : (task n : ℕ) → p.not_full.woken ≡ suc n → Step p (look_run (woken_for_room p n) task)
  takes : Step p (look_take p p.queue)
  takes_on : (n : ℕ) → p.not_empty.woken ≡ suc n → Step p (look_take (woken_for_task p n) p.queue)
  stops : Step p (only (stop p))
  wakes_for_room :
      (s : ℕ)
      → p.not_full.sleeping ≡ suc s
      → Step p
          (only (record p { not_full = record { sleeping = s; woken = suc p.not_full.woken } }))
  wakes_for_task :
      (s : ℕ)
      → p.not_empty.sleeping ≡ suc s
      → Step p
          (only (record p { not_empty = record { sleeping = s; woken = suc p.not_empty.woken } }))

-- A run of the threads, with the tasks that are put in and those that are handed out, in order.
pub data Run : ThreadPool → List ℕ → List ℕ → ThreadPool → Type 0 where
  end : {p : ThreadPool} → Run p [] [] p
  steps :
      {p p' : ThreadPool} {r : Outcome} {ins outs : List ℕ}
      → Step p r
      → Run r.state ins outs p'
      → Run p (r.ins ++ ins) (r.outs ++ outs) p'
