-- ===== src/EventLoop/Progress.antt =====
-- When the functors of the queue of net/EventLoop.cc are called.
use libanet.Common.{
  ℕ, suc, ◌+◌, ◌≤◌, ◌<◌, ◌≡◌, refl, sym, ap, ap₂, subst, ◌∙◌, Bool, true, false, List, [], ◌∷◌,
  ◌++◌, length, length-append, Bool-cases, inl, inr, arith,
}
use mathlib.Core.Bool.{false≢true}
use mathlib.Core.List.{append_assoc}
use libanet.EventLoop.{
  EventFd, Place, stopped, tests, polls, handles, flushes, calls, EventLoop, wakeup, handle_read,
  queue_in_loop, quit_loop, test_quit, finish_poll, finish_events, take_functors, call_next, Step,
  testing, polling, reading, handled, taking, calling, queueing, quitting, queueing_elsewhere,
  quitting_elsewhere, waking_up, Run, stop, steps,
}
use libanet.EventLoop.Order.{is_calls, IsSettled, all_functors, step-Kept, threads-in_order}

-- Whether the loop's thread is between the last call of a functor and the next handlers.
abbrev is_done : Place → Bool
is_done stopped = true
is_done tests = true
is_done polls = true
is_done handles = false
is_done flushes = false
is_done calls = false

-- How far the loop has come with its first n functors since iteration i.
record Reached {Counter : Type 0} (n i : ℕ) (l : EventLoop Counter) : Type 0 where
  all : n ≤ length l.ran + length l.functors + length l.pending_functors
  taken : i < l.iteration → is_calls l.place ≡ true → n ≤ length l.ran + length l.functors
  done : i < l.iteration → is_done l.place ≡ true → n ≤ length l.ran
  later : suc i < l.iteration → n ≤ length l.ran

module _ {Counter : Type 0} (fd : EventFd Counter) (n i : ℕ) where
  test_quit-Reached :
      (l : EventLoop Counter) → l.place ≡ tests → Reached n i l → Reached n i (test_quit l)
  unfolding test_quit
  test_quit-Reached l h r = elim (Bool-cases l.quit) [
    | inl q ↦ rw q (record {
      all = r.all;
      taken = λ k c. absurd (false≢true c);
      done = λ k d. r.done k (ap is_done h);
      later = r.later;
    })
    | inr q ↦ rw q (record {
      all = r.all;
      taken = λ k c. absurd (false≢true c);
      done = λ k d. r.done k (ap is_done h);
      later = r.later;
    })
  ]

  finish_poll-Reached :
      (l : EventLoop Counter) → l.place ≡ polls → Reached n i l → Reached n i (finish_poll l)
  unfolding finish_poll
  finish_poll-Reached l h r = record {
    all = r.all;
    taken = λ k c. absurd (false≢true c);
    done = λ k d. absurd (false≢true d);
    later = λ k. r.done (omega arith) (ap is_done h);
  }

  finish_events-Reached : (l : EventLoop Counter) → Reached n i l → Reached n i (finish_events l)
  unfolding finish_events
  finish_events-Reached l r = record {
    all = r.all;
    taken = λ k c. absurd (false≢true c);
    done = λ k d. absurd (false≢true d);
    later = r.later;
  }

  take_functors-Reached :
      (l : EventLoop Counter)
      → l.place ≡ flushes
      → IsSettled l
      → Reached n i l
      → Reached n i (take_functors l)
  unfolding take_functors
  take_functors-Reached l h s r = record {
    all = omega (arith, none_taken, r.all);
    taken = λ k c. omega (arith, none_taken, r.all);
    done = λ k d. absurd (false≢true d);
    later = r.later;
  }
    where
      none_taken : length l.functors ≡ 0
      none_taken = ap length (s (ap is_calls h))

  call_next-Reached :
      (fs : List ℕ) (l : EventLoop Counter)
      → l.place ≡ calls
      → l.functors ≡ fs
      → Reached n i l
      → Reached n i (call_next fs l)
  unfolding call_next
  call_next-Reached [] l h e r = record {
    all = r.all;
    taken = λ k c. absurd (false≢true c);
    done = λ k d. omega (arith, ap (length {A = ℕ}) e, r.taken k (ap is_calls h));
    later = r.later;
  }
  call_next-Reached (f ∷ fs) l h e r = record {
    all = omega (arith, one_called, r.all);
    taken = λ k c. omega (arith, one_called, r.taken k c);
    done = λ k d. omega (arith, one_more, r.done k d);
    later = λ k. omega (arith, one_more, r.later k);
  }
    where
      one_more : length (l.ran ++ (f ∷ [])) ≡ length l.ran + 1
      one_more = length-append l.ran (f ∷ [])

      one_called : length (l.ran ++ (f ∷ [])) + length fs ≡ length l.ran + length l.functors
      one_called = omega (arith, one_more, ap (length {A = ℕ}) e)

  -- A step that leaves the place and what was called as they were, and at most adds functors.
  abbrev same-Reached :
      (l l' : EventLoop Counter)
      → l'.place ≡ l.place
      → l'.iteration ≡ l.iteration
      → l'.ran ≡ l.ran
      → l'.functors ≡ l.functors
      → length l.pending_functors ≤ length l'.pending_functors
      → Reached n i l
      → Reached n i l'
  same-Reached l l' p t o f m r = record {
    all = rw (o, f) (omega (arith, m, r.all));
    taken = rw (o, f, t, p) r.taken;
    done = rw (o, t, p) r.done;
    later = rw (o, t) r.later;
  }

  more_pending :
      (l : EventLoop Counter) (f : ℕ)
      → length l.pending_functors ≤ length (l.pending_functors ++ (f ∷ []))
  more_pending l f = omega (arith, length-append l.pending_functors (f ∷ []))

  queue_in_loop-Reached :
      (b : Bool) (l : EventLoop Counter) (f : ℕ)
      → Reached n i l
      → Reached n i (queue_in_loop fd b l f)
  unfolding queue_in_loop wakeup
  queue_in_loop-Reached true l f r = elim (Bool-cases l.calling_pending_functors) [
    | inl c ↦ rw c (same-Reached l _ refl refl refl refl (more_pending l f) r)
    | inr c ↦ rw c (same-Reached l _ refl refl refl refl (more_pending l f) r)
  ]
  queue_in_loop-Reached false l f r = same-Reached l _ refl refl refl refl (more_pending l f) r

  step-Reached :
      {l : EventLoop Counter} {queued : List ℕ} {l' : EventLoop Counter}
      → Step fd l queued l'
      → IsSettled l
      → Reached n i l
      → Reached n i l'
  unfolding handle_read wakeup quit_loop
  step-Reached {l} (testing h) s r = test_quit-Reached l h r
  step-Reached {l} (polling h) s r = finish_poll-Reached l h r
  step-Reached {l} (reading h) s r = same-Reached l _ refl refl refl refl (omega arith) r
  step-Reached {l} (handled h) s r = finish_events-Reached l r
  step-Reached {l} (taking h) s r = take_functors-Reached l h s r
  step-Reached {l} (calling h) s r = call_next-Reached l.functors l h refl r
  step-Reached {l} (queueing f i) s r = queue_in_loop-Reached true l f r
  step-Reached {l} (quitting i) s r = same-Reached l _ refl refl refl refl (omega arith) r
  step-Reached {l} (queueing_elsewhere f) s r = queue_in_loop-Reached false l f r
  step-Reached {l} quitting_elsewhere s r = same-Reached l _ refl refl refl refl (omega arith) r
  step-Reached {l} (waking_up n h) s r = same-Reached l _ refl refl refl refl (omega arith) r

  threads-Reached :
      {l : EventLoop Counter} {queued : List ℕ} {l' : EventLoop Counter}
      → Run fd l queued l'
      → IsSettled l
      → Reached n i l
      → Reached n i l'
  threads-Reached stop s r = r
  threads-Reached (steps e es) s r =
      threads-Reached es (step-Kept fd e s).settled (step-Reached e s r)

-- A list that is at least as long as the beginning of another one begins with it, if the two begin a
-- common list.
prefix_lem :
    (a b c d : List ℕ) → a ++ b ≡ c ++ d → length a ≤ length c → (more : List ℕ) × (c ≡ a ++ more)
prefix_lem [] b c d e h = (c, refl)
prefix_lem (x ∷ a) b [] d e h = absurd (omega (arith, h))
prefix_lem (x ∷ a) b (y ∷ c) d e h =
    let heads : x ≡ y = cc in
    let tails : a ++ b ≡ c ++ d = cc in
    let rest = prefix_lem a b c d tails (omega (arith, h)) in
    (rest.0, ap₂ (λ z zs. z ∷ zs) (sym heads) rest.1)

-- Whatever the threads do while the loop runs, once the wait for events has ended twice, all functors
-- that were taken or queued at the beginning have been called, in their order and before any other;
-- if at the beginning no functors were taken but among the calls.
pub threads-served :
    {Counter : Type 0} (fd : EventFd Counter) (l : EventLoop Counter) (queued : List ℕ)
    (l' : EventLoop Counter)
    → Run fd l queued l'
    → IsSettled l
    → l.iteration + 2 ≤ l'.iteration
    → (more : List ℕ) × (l'.ran ≡ all_functors l ++ more)
threads-served fd l queued l' run s h =
    prefix_lem (all_functors l) queued l'.ran (l'.functors ++ l'.pending_functors)
      ((threads-in_order fd l queued l' run s).0
        ∙ append_assoc l'.ran l'.functors l'.pending_functors)
      (subst (λ n. n ≤ length l'.ran) (sym total) (end.later (omega (arith, h))))
  where
    total : length (all_functors l) ≡ length l.ran + length l.functors + length l.pending_functors
    total = omega (
      arith,
      length-append (l.ran ++ l.functors) l.pending_functors,
      length-append l.ran l.functors,
    )

    end : Reached (length l.ran + length l.functors + length l.pending_functors) l.iteration l'
    end = threads-Reached fd _ l.iteration run s (record {
      all = omega arith;
      taken = λ k c. absurd (omega (arith, k));
      done = λ k c. absurd (omega (arith, k));
      later = λ k. absurd (omega (arith, k));
    })
