-- ===== src/CountDownLatch/Tests.antt =====
-- A latch for which two threads wait, and the theorem at a concrete input.
use libanet.Common.{ℕ, ◌≡◌, refl}
use libanet.Common.Int.{ℤ, pos, negsuc, ◌-ℤ◌}
use libanet.CountDownLatch.{CountDownLatch, create, count_down, look, counts, waits, resumes, step}
use libanet.CountDownLatch.Waiters.{Run, stop, steps, count_down-sleeping}

abbrev latch : ℕ → ℕ → ℤ → CountDownLatch
latch sleeping woken count = record {
  condition = record { sleeping = sleeping; woken = woken };
  count = count;
}

two_waiters : look (look (create (pos 1))) ≡ latch 2 0 (pos 1)
unfolding look create
two_waiters = refl

-- One of the two goes on, and another thread counts down once more.
abbrev later : CountDownLatch
later = latch 1 0 (negsuc 0)

one_goes_on : Run (count_down (latch 2 0 (pos 1))) later
unfolding step count_down look ◌-ℤ◌ libanet.CountDownLatch.look_again
one_goes_on = steps {m = latch 1 0 (pos 0)} resumes refl (steps {m = later} counts refl stop)

count_down-sleeping_example : later.condition.sleeping ≡ 1
count_down-sleeping_example = count_down-sleeping 1 0 later one_goes_on
