-- ===== src/EventLoop/Order.antt =====
-- The queue of functors of net/EventLoop.cc: in which order they are called, and how often.
use libanet.Common.{
  ℕ, ◌≡◌, inl, inr, refl, sym, ap, ◌∙◌, Bool, true, false, List, [], ◌∷◌, ◌++◌, Bool-cases,
}
use mathlib.Core.Bool.{false≢true}
use mathlib.Core.List.{append-nil, append_assoc}
use libanet.EventLoop.{
  EventFd, Place, stopped, tests, polls, handles, flushes, calls, EventLoop, wakeup, handle_read,
  queue_in_loop, quit_loop, test_quit, finish_poll, finish_events, take_functors, call_next, Step,
  testing, polling, reading, handled, taking, calling, queueing, quitting, queueing_elsewhere,
  quitting_elsewhere, waking_up, Run, stop, steps,
}

abbrev pub is_calls : Place → Bool
is_calls stopped = false
is_calls tests = false
is_calls polls = false
is_calls handles = false
is_calls flushes = false
is_calls calls = true

-- Only among the calls of functors are there functors that were taken.
abbrev pub IsSettled : {Counter : Type 0} → EventLoop Counter → Type 0
IsSettled l = is_calls l.place ≡ false → l.functors ≡ []

-- The functors of the queue, from the first that was called to the last that waits.
abbrev pub all_functors : {Counter : Type 0} → EventLoop Counter → List ℕ
all_functors l = l.ran ++ l.functors ++ l.pending_functors

module _ {Counter : Type 0} (fd : EventFd Counter) where
  -- What a step keeps
  pub record Kept (l : EventLoop Counter) (queued : List ℕ) (l' : EventLoop Counter) : Type 0 where
    pub settled : IsSettled l'
    pub in_order : all_functors l ++ queued ≡ all_functors l'

  test_quit-Kept : (l : EventLoop Counter) → l.place ≡ tests → IsSettled l → Kept l [] (test_quit l)
  unfolding test_quit
  test_quit-Kept l h s = elim (Bool-cases l.quit) [
    | inl q ↦
        rw q (record { settled = λ k. s (ap is_calls h); in_order = append-nil (all_functors l) })
    | inr q ↦
        rw q (record { settled = λ k. s (ap is_calls h); in_order = append-nil (all_functors l) })
  ]

  take_functors-Kept :
      (l : EventLoop Counter) → l.place ≡ flushes → IsSettled l → Kept l [] (take_functors l)
  unfolding take_functors
  take_functors-Kept l h s = record {
    settled = λ k. absurd (false≢true (sym k));
    in_order = rw (s (ap is_calls h)) (simp (append-nil));
  }

  call_next-Kept :
      (fs : List ℕ) (l : EventLoop Counter)
      → l.place ≡ calls
      → l.functors ≡ fs
      → Kept l [] (call_next fs l)
  unfolding call_next
  call_next-Kept [] l h e = record { settled = λ k. e; in_order = append-nil (all_functors l) }
  call_next-Kept (f ∷ fs) l h e = record {
    settled = λ k. absurd (false≢true (sym k ∙ ap is_calls h));
    in_order = rw e (simp (append-nil, append_assoc));
  }

  queue_in_loop-Kept :
      (b : Bool) (l : EventLoop Counter) (f : ℕ)
      → IsSettled l
      → Kept l (f ∷ []) (queue_in_loop fd b l f)
  unfolding queue_in_loop wakeup
  queue_in_loop-Kept true l f s = elim (Bool-cases l.calling_pending_functors) [
    | inl c ↦ rw c (record { settled = s; in_order = simp (append_assoc) })
    | inr c ↦ rw c (record { settled = s; in_order = simp (append_assoc) })
  ]
  queue_in_loop-Kept false l f s = record { settled = s; in_order = simp (append_assoc) }

  -- A step that leaves the place and the functors as they were
  abbrev same-Kept :
      (l l' : EventLoop Counter)
      → is_calls l'.place ≡ is_calls l.place
      → l'.functors ≡ l.functors
      → all_functors l' ≡ all_functors l
      → IsSettled l
      → Kept l [] l'
  same-Kept l l' p e o s = record {
    settled = λ k. e ∙ s (sym p ∙ k);
    in_order = append-nil (all_functors l) ∙ sym o;
  }

  pub step-Kept :
      {l : EventLoop Counter} {queued : List ℕ} {l' : EventLoop Counter}
      → Step fd l queued l'
      → IsSettled l
      → Kept l queued l'
  unfolding finish_poll finish_events handle_read wakeup quit_loop
  step-Kept {l} (testing h) s = test_quit-Kept l h s
  step-Kept {l} (polling h) s = same-Kept l _ (sym (ap is_calls h)) refl refl s
  step-Kept {l} (reading h) s = same-Kept l _ refl refl refl s
  step-Kept {l} (handled h) s = same-Kept l _ (sym (ap is_calls h)) refl refl s
  step-Kept {l} (taking h) s = take_functors-Kept l h s
  step-Kept {l} (calling h) s = call_next-Kept l.functors l h refl
  step-Kept {l} (queueing f i) s = queue_in_loop-Kept true l f s
  step-Kept {l} (quitting i) s = same-Kept l _ refl refl refl s
  step-Kept {l} (queueing_elsewhere f) s = queue_in_loop-Kept false l f s
  step-Kept {l} quitting_elsewhere s = same-Kept l _ refl refl refl s
  step-Kept {l} (waking_up n h) s = same-Kept l _ refl refl refl s

-- Whatever the threads do while the loop runs, the functors are called in the order in which they were
-- queued, each of them once: those called at the end, those taken and not yet called, and those in the
-- queue are together those of the beginning, followed by those that were queued; if at the beginning
-- no functors were taken but among the calls, and then this holds at the end too.
pub threads-in_order :
    {Counter : Type 0} (fd : EventFd Counter) (l : EventLoop Counter) (queued : List ℕ)
    (l' : EventLoop Counter)
    → Run fd l queued l'
    → IsSettled l
    → (all_functors l ++ queued ≡ all_functors l') × IsSettled l'
threads-in_order fd l _ _ stop s = (append-nil (all_functors l), s)
threads-in_order fd l _ l' (steps {l1 = l1} {queued = queued} {later = later} e r) s =
    let k = step-Kept fd e s in
    let rest = threads-in_order fd l1 later l' r k.settled in
    (
      sym (append_assoc (all_functors l) queued later) ∙ ap (λ xs. xs ++ later) k.in_order ∙ rest.0,
      rest.1,
    )
