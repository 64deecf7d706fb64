-- ===== src/BoundedBlockingQueue/Tests.antt =====
-- A queue with room for one element, and the theorem at a concrete input.
use libanet.Common.{ℕ, ◌≡◌, refl, List, [], ◌∷◌, ◌++◌}
use libanet.BoundedBlockingQueue.{BoundedBlockingQueue, Outcome, put, resume_put, take, step}
use libanet.BoundedBlockingQueue.Runs.{Sound, Run, stop, steps, all_threads-Kept}

abbrev state : ℕ → ℕ → List ℕ → BoundedBlockingQueue ℕ
state sleeping woken queue = record {
  not_empty = record { sleeping = 0; woken = 0 };
  not_full = record { sleeping = sleeping; woken = woken };
  max_size = 1;
  queue = queue;
}

abbrev before : BoundedBlockingQueue ℕ
before = state 0 0 []

abbrev after : BoundedBlockingQueue ℕ
after = state 0 0 (8 ∷ [])

abbrev outcome : BoundedBlockingQueue ℕ → List ℕ → List ℕ → Outcome ℕ
outcome state ins outs = record { state = state; ins = ins; outs = outs }

-- The thread that has 8 waits until 7 is taken.
waits_for_room : Run before (7 ∷ 8 ∷ []) (7 ∷ []) after
unfolding step libanet.BoundedBlockingQueue.look_put libanet.BoundedBlockingQueue.look_take
    libanet.BoundedBlockingQueue.again_put
waits_for_room = steps (put 7) (outcome (state 0 0 (7 ∷ [])) (7 ∷ []) []) refl (
    steps (put 8) (outcome (state 1 0 (7 ∷ [])) [] []) refl (
      steps take (outcome (state 0 1 []) [] (7 ∷ [])) refl
        (steps (resume_put 8) (outcome after (8 ∷ []) []) refl stop)))

all_threads-Kept_example :
    (before.queue ++ (7 ∷ 8 ∷ []) ≡ (7 ∷ []) ++ after.queue) × (Sound before → Sound after)
all_threads-Kept_example = all_threads-Kept before (7 ∷ 8 ∷ []) (7 ∷ []) after waits_for_room
