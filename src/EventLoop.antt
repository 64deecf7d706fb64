-- ===== src/EventLoop.antt =====
-- net/EventLoop.h and net/EventLoop.cc: the queue of functors, the wakeup and the loop, as steps of
-- the loop's thread and of other threads. The eventfd is a parameter, a functor is a number, and what
-- the wait for events reports is any choice of handlers. The calls that a functor or a handler makes
-- are the steps that follow.
mod Wakeup
mod Order
mod Progress
mod Tests
use libanet.Common.{ℕ, suc, ◌+◌, ◌≡◌, Bool, true, false, List, [], ◌∷◌, ◌++◌, if◌then◌else◌}

-- What write(2) and read(2) of 8 bytes do with the eventfd, and whether it is ready for reading.
pub record EventFd (Counter : Type 0) : Type 0 where
  pub write : Counter → Counter
  pub read : Counter → Counter
  pub is_readable : Counter → Bool

-- Where the loop's thread stands in `loop`: at the test of quit_, in the poller, among the handlers,
-- at doPendingFunctors, or among the functors that it took.
pub data Place : Type 0 where
  stopped tests polls handles flushes calls : Place

-- `waking` counts the other threads that have yet to call wakeup, and `ran` has the functors of the
-- queue that have been called.
pub record EventLoop (Counter : Type 0) : Type 0 where
  pub place : Place
  pub looping : Bool
  pub quit : Bool
  pub event_handling : Bool
  pub calling_pending_functors : Bool
  pub iteration : ℕ
  pub wakeup_fd : Counter
  pub waking : ℕ
  pub pending_functors : List ℕ
  pub functors : List ℕ
  pub ran : List ℕ

-- Whether the loop's thread runs a handler or a functor.
unfoldable pub in_callback : Place → Bool
in_callback stopped = false
in_callback tests = false
in_callback polls = false
in_callback handles = true
in_callback flushes = false
in_callback calls = true

module _ {Counter : Type 0} where
  unfoldable pub create : Counter → EventLoop Counter
  create wakeup_fd = record {
    place = stopped;
    looping = false;
    quit = false;
    event_handling = false;
    calling_pending_functors = false;
    iteration = 0;
    wakeup_fd = wakeup_fd;
    waking = 0;
    pending_functors = [];
    functors = [];
    ran = [];
  }

  -- The beginning of loop
  unfoldable pub start_looping : EventLoop Counter → EventLoop Counter
  start_looping l = record l { place = tests; looping = true; quit = false }

  -- What another thread does up to its call of wakeup.
  abbrev pub will_wake : EventLoop Counter → EventLoop Counter
  will_wake l = record l { waking = suc l.waking }

  abbrev pub push_functor : EventLoop Counter → ℕ → EventLoop Counter
  push_functor l f = record l { pending_functors = l.pending_functors ++ (f ∷ []) }

  unfoldable pub quit_loop : Bool → EventLoop Counter → EventLoop Counter
  quit_loop true l = record l { quit = true }
  quit_loop false l = will_wake (record l { quit = true })

  -- The test of the loop, and what stands after it.
  unfoldable pub test_quit : EventLoop Counter → EventLoop Counter
  test_quit l =
      if l.quit then record l { place = stopped; looping = false } else record l { place = polls }

  unfoldable pub finish_poll : EventLoop Counter → EventLoop Counter
  finish_poll l = record l { place = handles; iteration = suc l.iteration; event_handling = true }

  unfoldable pub finish_events : EventLoop Counter → EventLoop Counter
  finish_events l = record l {
    place = flushes;
    event_handling = false;
    calling_pending_functors = true;
  }

  -- doPendingFunctors, up to its loop
  unfoldable pub take_functors : EventLoop Counter → EventLoop Counter
  take_functors l = record l { place = calls; functors = l.pending_functors; pending_functors = [] }

  -- The loop of doPendingFunctors: the call of the next functor, or the end.
  unfoldable pub call_next : List ℕ → EventLoop Counter → EventLoop Counter
  call_next [] l = record l { place = tests; calling_pending_functors = false }
  call_next (f ∷ fs) l = record l { functors = fs; ran = l.ran ++ (f ∷ []) }

module _ {Counter : Type 0} (fd : EventFd Counter) where
  unfoldable pub wakeup : EventLoop Counter → EventLoop Counter
  wakeup l = record l { wakeup_fd = fd.write l.wakeup_fd }

  -- EventLoop::handleRead
  unfoldable pub handle_read : EventLoop Counter → EventLoop Counter
  handle_read l = record l { wakeup_fd = fd.read l.wakeup_fd }

  -- In the loop's thread or in another one, where the call of wakeup is a step of its own
  unfoldable pub queue_in_loop : Bool → EventLoop Counter → ℕ → EventLoop Counter
  unfolding wakeup
  queue_in_loop true l f =
      let l' = push_functor l f in if l'.calling_pending_functors then wakeup l' else l'
  queue_in_loop false l f = will_wake (push_functor l f)

-- A step of any thread while the loop's thread is in `loop`, with the functors that it queues.
pub data Step {Counter : Type 0} (fd : EventFd Counter) (l : EventLoop Counter)
    : List ℕ → EventLoop Counter → Type 0 where
  testing : l.place ≡ tests → Step fd l [] (test_quit l)
  polling : l.place ≡ polls → Step fd l [] (finish_poll l)
  reading : l.place ≡ handles → Step fd l [] (handle_read fd l)
  handled : l.place ≡ handles → Step fd l [] (finish_events l)
  taking : l.place ≡ flushes → Step fd l [] (take_functors l)
  calling : l.place ≡ calls → Step fd l [] (call_next l.functors l)
  queueing : (f : ℕ) → in_callback l.place ≡ true → Step fd l (f ∷ []) (queue_in_loop fd true l f)
  quitting : in_callback l.place ≡ true → Step fd l [] (quit_loop true l)
  queueing_elsewhere : (f : ℕ) → Step fd l (f ∷ []) (queue_in_loop fd false l f)
  quitting_elsewhere : Step fd l [] (quit_loop false l)
  waking_up : (n : ℕ) → l.waking ≡ suc n → Step fd l [] (wakeup fd (record l { waking = n }))

-- A run of the threads, with the functors that are queued, in order.
pub data Run {Counter : Type 0} (fd : EventFd Counter)
    : EventLoop Counter → List ℕ → EventLoop Counter → Type 0 where
  stop : {l : EventLoop Counter} → Run fd l [] l
  steps :
      {l l1 l2 : EventLoop Counter} {queued later : List ℕ}
      → Step fd l queued l1
      → Run fd l1 later l2
      → Run fd l (queued ++ later) l2
