-- ===== src/EventLoop/Wakeup.antt =====
-- The wakeups of net/EventLoop.cc: the loop's thread does not wait while there is something to do.
use libanet.Common.{
  ℕ, suc, ◌<◌, ◌≡◌, ◌≢◌, ◌⊎◌, inl, inr, refl, sym, ap, ◌∙◌, Bool, true, false, List, [], ◌∷◌, ◌++◌,
  Bool-cases, arith,
}
use mathlib.Core.Bool.{false≢true}
use libanet.EventLoop.{
  EventFd, Place, stopped, tests, polls, handles, flushes, calls, EventLoop, wakeup, handle_read,
  queue_in_loop, quit_loop, test_quit, finish_poll, finish_events, take_functors, call_next,
  in_callback, Step, testing, polling, reading, handled, taking, calling, queueing, quitting,
  queueing_elsewhere, quitting_elsewhere, waking_up, Run, stop, steps,
}

-- Whether the next thing that the loop's thread does with the queue comes after a wait.
abbrev pub waits_first : Place → Bool
waits_first stopped = false
waits_first tests = true
waits_first polls = true
waits_first handles = false
waits_first flushes = false
waits_first calls = true

-- Whether the loop's thread is in doPendingFunctors.
abbrev pub is_flushing : Place → Bool
is_flushing stopped = false
is_flushing tests = false
is_flushing polls = false
is_flushing handles = false
is_flushing flushes = true
is_flushing calls = true

callback_waits : (p : Place) → in_callback p ≡ true → waits_first p ≡ true → is_flushing p ≡ true
unfolding in_callback
callback_waits stopped i w = absurd (false≢true i)
callback_waits tests i w = absurd (false≢true i)
callback_waits polls i w = absurd (false≢true i)
callback_waits handles i w = absurd (false≢true w)
callback_waits flushes i w = refl
callback_waits calls i w = refl

module _ {Counter : Type 0} (fd : EventFd Counter) where
  -- The wait for events ends at once, or another thread is about to end it.
  abbrev pub WillWake : EventLoop Counter → Type 0
  WillWake l = (fd.is_readable l.wakeup_fd ≡ true) ⊎ (0 < l.waking)

  -- Before a wait, functors that are queued and a call of quit are not overlooked.
  pub record Awake (l : EventLoop Counter) : Type 0 where
    pub flag : is_flushing l.place ≡ true → l.calling_pending_functors ≡ true
    pub functors : waits_first l.place ≡ true → l.pending_functors ≢ [] → WillWake l
    pub quits : l.place ≡ polls → l.quit ≡ true → WillWake l

  -- A step that leaves the place, the flag and the queue as they were, and whose wakeups remain.
  abbrev moved-Awake :
      (l l' : EventLoop Counter)
      → l'.place ≡ l.place
      → l'.calling_pending_functors ≡ l.calling_pending_functors
      → (waits_first l.place ≡ true → WillWake l')
      → Awake l
      → Awake l'
  moved-Awake l l' p c w a = record {
    flag = λ h. c ∙ a.flag (sym (ap is_flushing p) ∙ h);
    functors = λ h n. w (sym (ap waits_first p) ∙ h);
    quits = λ h q. w (ap waits_first (sym p ∙ h));
  }

  test_quit-Awake : (l : EventLoop Counter) → l.place ≡ tests → Awake l → Awake (test_quit l)
  unfolding test_quit
  test_quit-Awake l h a = elim (Bool-cases l.quit) [
    | inl q ↦ rw q (record {
      flag = λ k. absurd (false≢true k);
      functors = λ k n. absurd (false≢true k);
      quits = λ k t. cc;
    })
    | inr q ↦ rw q (record {
      flag = λ k. absurd (false≢true k);
      functors = λ k n. a.functors (ap waits_first h) n;
      quits = λ k t. absurd (false≢true t);
    })
  ]

  finish_poll-Awake : (l : EventLoop Counter) → Awake (finish_poll l)
  unfolding finish_poll
  finish_poll-Awake l = record {
    flag = λ k. absurd (false≢true k);
    functors = λ k n. absurd (false≢true k);
    quits = λ k t. cc;
  }

  handle_read-Awake :
      (l : EventLoop Counter) → l.place ≡ handles → Awake l → Awake (handle_read fd l)
  unfolding handle_read
  handle_read-Awake l h a =
      moved-Awake l _ refl refl (λ k. absurd (false≢true (sym (ap waits_first h) ∙ k))) a

  finish_events-Awake : (l : EventLoop Counter) → Awake (finish_events l)
  unfolding finish_events
  finish_events-Awake l = record {
    flag = λ k. refl;
    functors = λ k n. absurd (false≢true k);
    quits = λ k t. cc;
  }

  take_functors-Awake :
      (l : EventLoop Counter) → l.place ≡ flushes → Awake l → Awake (take_functors l)
  unfolding take_functors
  take_functors-Awake l h a = record {
    flag = λ k. a.flag (ap is_flushing h);
    functors = λ k n. absurd (n refl);
    quits = λ k t. cc;
  }

  call_next-Awake :
      (fs : List ℕ) (l : EventLoop Counter) → l.place ≡ calls → Awake l → Awake (call_next fs l)
  unfolding call_next
  call_next-Awake [] l h a = record {
    flag = λ k. absurd (false≢true k);
    functors = λ k n. a.functors (ap waits_first h) n;
    quits = λ k t. cc;
  }
  call_next-Awake (f ∷ fs) l h a = record { flag = a.flag; functors = a.functors; quits = a.quits }

  -- What another thread does before it calls wakeup.
  will_wake-Awake :
      (l : EventLoop Counter) (q : Bool) (fs : List ℕ)
      → Awake l
      → Awake (record l { quit = q; pending_functors = fs; waking = suc l.waking })
  will_wake-Awake l q fs a = moved-Awake l _ refl refl (λ k. inr (omega arith)) a

  -- The law of the eventfd: after a write it is ready for reading.
  module _ (written : (c : Counter) → fd.is_readable (fd.write c) ≡ true) where
    wakeup-Awake :
        (l : EventLoop Counter) (n : ℕ) → Awake l → Awake (wakeup fd (record l { waking = n }))
    unfolding wakeup
    wakeup-Awake l n a = moved-Awake l _ refl refl (λ k. inl (written l.wakeup_fd)) a

    queue_in_loop-Awake :
        (l : EventLoop Counter) (f : ℕ)
        → in_callback l.place ≡ true
        → Awake l
        → Awake (queue_in_loop fd true l f)
    unfolding queue_in_loop wakeup
    queue_in_loop-Awake l f i a = elim (Bool-cases l.calling_pending_functors) [
      | inl c ↦ rw c (record {
        flag = λ k. refl;
        functors = λ k n. inl (written l.wakeup_fd);
        quits = λ k t. inl (written l.wakeup_fd);
      })
      | inr c ↦ rw c (record {
        flag = λ k. sym c ∙ a.flag k;
        functors = λ k n. absurd (false≢true (sym c ∙ a.flag (callback_waits l.place i k)));
        quits = a.quits;
      })
    ]

    quit_loop-Awake :
        (l : EventLoop Counter) → in_callback l.place ≡ true → Awake l → Awake (quit_loop true l)
    unfolding quit_loop in_callback
    quit_loop-Awake l i a = record {
      flag = a.flag;
      functors = a.functors;
      quits = λ h t. absurd (false≢true (sym (ap in_callback h) ∙ i));
    }

    step-Awake :
        {l : EventLoop Counter} {queued : List ℕ} {l' : EventLoop Counter}
        → Step fd l queued l'
        → Awake l
        → Awake l'
    unfolding queue_in_loop quit_loop
    step-Awake (testing h) a = test_quit-Awake _ h a
    step-Awake (polling h) a = finish_poll-Awake _
    step-Awake (reading h) a = handle_read-Awake _ h a
    step-Awake (handled h) a = finish_events-Awake _
    step-Awake (taking h) a = take_functors-Awake _ h a
    step-Awake {l} (calling h) a = call_next-Awake l.functors l h a
    step-Awake (queueing f i) a = queue_in_loop-Awake _ f i a
    step-Awake (quitting i) a = quit_loop-Awake _ i a
    step-Awake {l} (queueing_elsewhere f) a =
        will_wake-Awake l l.quit (l.pending_functors ++ (f ∷ [])) a
    step-Awake {l} quitting_elsewhere a = will_wake-Awake l true l.pending_functors a
    step-Awake {l} (waking_up n h) a = wakeup-Awake l n a

-- Whatever the threads do while the loop runs, and whenever they do it: if before the threads' run
-- the loop's thread could not overlook work, it cannot at its end: when it is at the wait for events and a
-- functor is queued or quit has been called, the eventfd is ready for reading, or another thread is
-- about to write to it; provided that the eventfd is ready after a write.
pub threads-Awake :
    {Counter : Type 0} (fd : EventFd Counter)
    → ((c : Counter) → fd.is_readable (fd.write c) ≡ true)
    → (l : EventLoop Counter) (queued : List ℕ) (l' : EventLoop Counter) → Run fd l queued l'
    → Awake fd l
    → Awake fd l'
threads-Awake fd written l _ _ stop a = a
threads-Awake fd written l _ l' (steps {l1 = l1} {later = later} s r) a =
    threads-Awake fd written l1 later l' r (step-Awake fd written s a)
