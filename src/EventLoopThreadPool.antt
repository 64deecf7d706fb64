-- ===== src/EventLoopThreadPool.antt =====
-- net/EventLoopThreadPool.h and net/EventLoopThreadPool.cc: a loop for every connection. A loop is a
-- number, and `none` is an assert that fails. The loops that the threads start are an argument.
mod RoundRobin
mod Tests
use libanet.Common.{
  ℕ, zero, suc, ◌+◌, ◌-◌, ◌%◌, Bool, true, false, not, Option, none, some, List, [], ◌∷◌, ◌++◌,
  length, get_elem?, leb, ◌==◌, if◌then◌else◌, take,
}
use libanet.Common.Options.{◌>>=◌, ◌>>◌, check}

pub record EventLoopThreadPool : Type 0 where
  pub base_loop : ℕ
  pub started : Bool
  pub num_thread : ℕ
  pub next : ℕ
  pub loops : List ℕ

unfoldable pub create : ℕ → EventLoopThreadPool
create base_loop = record {
  base_loop = base_loop;
  started = false;
  num_thread = 0;
  next = 0;
  loops = [];
}

-- The body of setThreadNum is empty.
unfoldable pub set_thread_num : EventLoopThreadPool → ℕ → EventLoopThreadPool
set_thread_num p num_threads = p

-- The loops that EventLoopThread::startLoop returns for 0, 1, ..., n - 1.
abbrev start_loops : (ℕ → ℕ) → ℕ → List ℕ
start_loops start_loop zero = []
start_loops start_loop (suc n) = start_loops start_loop n ++ (start_loop n ∷ [])

unfoldable pub start : EventLoopThreadPool → (ℕ → ℕ) → Option EventLoopThreadPool
start p start_loop = do
  check (not p.started)
  some (record p { started = true; loops = p.loops ++ start_loops start_loop p.num_thread })

-- A loop, and the pool with its next one.
unfoldable pub get_next_loop : EventLoopThreadPool → Option (EventLoopThreadPool × ℕ)
get_next_loop p = do
  check p.started
  (if length p.loops == 0 then some (p, p.base_loop) else (do
    loop ← get_elem? p.loops p.next
    let next = suc p.next
    some (record p { next = if leb (length p.loops) next then 0 else next }, loop)))

unfoldable pub get_loop_for_hash : EventLoopThreadPool → ℕ → Option ℕ
get_loop_for_hash p hash_code =
    if length p.loops == 0 then some p.base_loop else get_elem? p.loops (hash_code % length p.loops)

unfoldable pub get_all_loops : EventLoopThreadPool → Option (List ℕ)
get_all_loops p = do
  check p.started
  some (if length p.loops == 0 then p.base_loop ∷ [] else p.loops)
