-- ===== src/ThreadPool/Tests.antt =====
-- A caller that waits for room, and the theorem on its run.
use libanet.Common.{ℕ, ◌≡◌, refl, Bool, true, false, List, [], ◌∷◌, ◌++◌}
use libanet.ThreadPool.{
  ThreadPool, is_full, look_run, look_take, stop, runs, runs_on, takes, stops, Run, end, steps,
}
use libanet.ThreadPool.Looks.{Sound}
use libanet.ThreadPool.Runs.{tasks-Kept}

-- A pool with a queue of one task, with so many that wait for room, or were woken for it.
abbrev pool : ℕ → ℕ → Bool → List ℕ → ThreadPool
pool sleeping woken running queue = record {
  not_empty = record { sleeping = 0; woken = 0 };
  not_full = record { sleeping = sleeping; woken = woken };
  max_queue_size = 1;
  running = running;
  queue = queue;
}

abbrev before : ThreadPool
before = pool 0 0 true []

abbrev after : ThreadPool
after = pool 0 0 false []

waits_for_room : Run before (5 ∷ 6 ∷ []) (5 ∷ 6 ∷ []) after
unfolding is_full look_run look_take stop
waits_for_room =
    steps {r = record { state = pool 0 0 true (5 ∷ []); ins = 5 ∷ []; outs = [] }} (runs 5) (
      steps {r = record { state = pool 1 0 true (5 ∷ []); ins = []; outs = [] }} (runs 6) (
        steps {r = record { state = pool 0 1 true []; ins = []; outs = 5 ∷ [] }} takes (
          steps {r = record { state = pool 0 0 true (6 ∷ []); ins = 6 ∷ []; outs = [] }}
            (runs_on 6 0 refl)
            (steps {r = record { state = pool 0 0 false (6 ∷ []); ins = []; outs = [] }} stops (
              steps {r = record { state = pool 0 0 false []; ins = []; outs = 6 ∷ [] }} takes
                end)))))

tasks-Kept_example :
    (before.queue ++ (5 ∷ 6 ∷ []) ≡ (5 ∷ 6 ∷ []) ++ after.queue) × (Sound before → Sound after)
tasks-Kept_example = tasks-Kept before (5 ∷ 6 ∷ []) (5 ∷ 6 ∷ []) after waits_for_room
