-- ===== src/EventLoop/Tests.antt =====
-- An eventfd that counts, a run of two threads, and the theorems on it.
use libanet.Common.{
  ℕ, zero, suc, ◌+◌, ◌≤◌, ◌≡◌, refl, Bool, true, false, List, [], ◌∷◌, ◌++◌, arith,
}
use mathlib.Core.Bool.{false≢true}
use libanet.EventLoop.{
  EventFd, EventLoop, create, start_looping, wakeup, handle_read, queue_in_loop, test_quit,
  finish_poll, finish_events, take_functors, call_next, in_callback, testing, polling, reading,
  handled, taking, calling, queueing, queueing_elsewhere, waking_up, Run, stop, steps,
}
use libanet.EventLoop.Wakeup.{Awake, threads-Awake}
use libanet.EventLoop.Order.{IsSettled, all_functors, threads-in_order}
use libanet.EventLoop.Progress.{threads-served}

abbrev is_positive : ℕ → Bool
is_positive zero = false
is_positive (suc n) = true

abbrev counter : EventFd ℕ
counter = record { write = suc; read = λ n. 0; is_readable = is_positive }

written : (c : ℕ) → counter.is_readable (counter.write c) ≡ true
written c = refl

-- Another thread queues functor 5 while the loop's thread waits, and functor 5 queues functor 6.
abbrev s0 : EventLoop ℕ
s0 = start_looping (create 0)

abbrev s1 : EventLoop ℕ
s1 = test_quit s0

abbrev s2 : EventLoop ℕ
s2 = queue_in_loop counter false s1 5

abbrev s3 : EventLoop ℕ
s3 = wakeup counter (record s2 { waking = 0 })

abbrev s4 : EventLoop ℕ
s4 = handle_read counter (finish_poll s3)

abbrev s5 : EventLoop ℕ
s5 = take_functors (finish_events s4)

abbrev s6 : EventLoop ℕ
s6 = queue_in_loop counter true (call_next s5.functors s5) 6

abbrev s7 : EventLoop ℕ
s7 = finish_poll (test_quit (call_next s6.functors s6))

first_half : {queued : List ℕ} → Run counter s5 queued s7 → Run counter s0 (5 ∷ queued) s7
unfolding create start_looping test_quit queue_in_loop wakeup finish_poll handle_read finish_events
first_half r = steps (testing refl) (
    steps {l1 = s2} (queueing_elsewhere 5) (
      steps {l1 = s3} (waking_up 0 refl) (
        steps (polling refl)
          (steps {l1 = s4} (reading refl) (steps (handled refl) (steps (taking refl) r))))))

second_half : Run counter s5 (6 ∷ []) s7
unfolding create start_looping test_quit queue_in_loop wakeup finish_poll handle_read finish_events
    take_functors call_next in_callback
second_half = steps (calling refl) (
    steps {l1 = s6} (queueing 6 refl)
      (steps (calling refl) (steps (testing refl) (steps (polling refl) stop))))

two_threads : Run counter s0 (5 ∷ 6 ∷ []) s7
two_threads = first_half second_half

s0-Awake : Awake counter s0
unfolding create start_looping
s0-Awake = record {
  flag = λ h. absurd (false≢true h);
  functors = λ h n. absurd (n refl);
  quits = λ h q. absurd (false≢true q);
}

s0-IsSettled : IsSettled s0
unfolding create start_looping
s0-IsSettled h = refl

two_waits : s0.iteration + 2 ≤ s7.iteration
unfolding create start_looping test_quit queue_in_loop wakeup finish_poll handle_read finish_events
    take_functors call_next
two_waits = omega arith

ran_5 : s7.ran ≡ 5 ∷ []
unfolding create start_looping test_quit queue_in_loop wakeup finish_poll handle_read finish_events
    take_functors call_next
ran_5 = refl

threads-Awake_example : Awake counter s7
threads-Awake_example = threads-Awake counter written s0 (5 ∷ 6 ∷ []) s7 two_threads s0-Awake

threads-in_order_example : (all_functors s0 ++ (5 ∷ 6 ∷ []) ≡ all_functors s7) × IsSettled s7
threads-in_order_example = threads-in_order counter s0 (5 ∷ 6 ∷ []) s7 two_threads s0-IsSettled

threads-served_example : (more : List ℕ) × (s7.ran ≡ all_functors s0 ++ more)
threads-served_example =
    threads-served counter s0 (5 ∷ 6 ∷ []) s7 two_threads s0-IsSettled two_waits
