-- ===== src/BlockingQueue/Tests.antt =====
-- A taker that comes before the element, and the theorem at a concrete input.
use libanet.Common.{ℕ, ◌≡◌, refl, List, [], ◌∷◌, ◌++◌}
use libanet.BlockingQueue.{BlockingQueue, put, take, resume, step}
use libanet.BlockingQueue.Runs.{NoLost, Run, stop, steps, threads-Kept}

abbrev state : ℕ → ℕ → List ℕ → BlockingQueue ℕ
state sleeping woken queue = record {
  not_empty = record { sleeping = sleeping; woken = woken };
  queue = queue;
}

waits_for_7 : Run (state 0 0 []) (7 ∷ 8 ∷ []) (7 ∷ []) (state 0 0 (8 ∷ []))
unfolding step libanet.BlockingQueue.look libanet.BlockingQueue.put_back
    libanet.BlockingQueue.look_again
waits_for_7 = steps {r = state 1 0 []} take refl (
    steps {r = state 0 1 (7 ∷ [])} (put 7) refl (
      steps {r = state 0 1 (7 ∷ 8 ∷ [])} (put 8) refl
        (steps {r = state 0 0 (8 ∷ [])} resume refl stop)))

abbrev before : BlockingQueue ℕ
before = state 0 0 []

abbrev after : BlockingQueue ℕ
after = state 0 0 (8 ∷ [])

threads-Kept_example :
    (before.queue ++ (7 ∷ 8 ∷ []) ≡ (7 ∷ []) ++ after.queue) × (NoLost before → NoLost after)
threads-Kept_example = threads-Kept before (7 ∷ 8 ∷ []) (7 ∷ []) after waits_for_7
