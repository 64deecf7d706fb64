-- ===== src/TimerQueue/Tests.antt =====
-- A queue of timers, and the theorems at concrete inputs.
use mathlib.Core.Bool.{false≢true}
use libanet.Common.{
  ℕ, ◌≡◌, refl, true, false, Option, none, some, List, [], ◌∷◌, ◌++◌, ◌==◌, if◌then◌else◌,
}
use libanet.Common.Int.{ℤ, pos, ◌≤ℤ◌, ltb_ℤ, ◌+ℤ◌}
use libanet.TimerQueue.{
  Entry, TimerQueue, no_timers, Action, adds, cancels, Event, acts, fires, run, step, handle_read,
  get_expired, act,
}
use libanet.TimerQueue.Sets.{In}
use libanet.TimerQueue.Invariant.{Inv, entry}
use libanet.TimerQueue.Steps.{IsArmed, run-Inv, get_expired-splits, handle_read-IsArmed}

abbrev empty_queue : TimerQueue
empty_queue = record {
  heap = λ p. none;
  num_created = 0;
  timers = [];
  active_timers = no_timers;
  calling_expired_timers = false;
  canceling_timers = no_timers;
  armed = none;
}

empty_queue-Inv : Inv empty_queue
empty_queue-Inv = record {
  sorted = tt;
  sizes = refl;
  scheduled = λ e m. absurd m;
  active = λ p s h. absurd (false≢true h);
}

-- Timer 7 repeats every 50, and timer 9 cancels it when it fires.
abbrev callbacks : ℕ → List Action
callbacks p = if p == 9 then cancels 7 1 ∷ adds 9 (pos 500) (pos 0) false ∷ [] else []

abbrev events : List Event
events =
    acts (adds 7 (pos 100) (pos 50) true)
    ∷ acts (adds 9 (pos 120) (pos 0) false)
    ∷ fires callbacks (pos 110)
    ∷ []

-- The timers that are left, and the timerfd
abbrev view : Option TimerQueue → List Entry × Option ℤ
view none = ([], none)
view (some q) = (q.timers, q.armed)

-- After the expiration, timer 9 comes before timer 7.
two_left :
    view (run empty_queue events) ≡ (entry (pos 120) 9 ∷ entry (pos 160) 7 ∷ [], some (pos 120))
unfolding run libanet.TimerQueue.cancel_active libanet.TimerQueue.insert ◌+ℤ◌
two_left = refl

running : (q' : TimerQueue) × (run empty_queue events ≡ some q') × Inv q'
running = run-Inv empty_queue events empty_queue-Inv

run-Inv_example : (q' : TimerQueue) × (run empty_queue events ≡ some q') × Inv q'
run-Inv_example = run-Inv empty_queue events empty_queue-Inv

get_expired-splits_example :
    (q' : TimerQueue) × (expired : List Entry) × (get_expired running.0 (pos 130)
      ≡ some (q', expired))
    × (expired ++ q'.timers ≡ running.0.timers)
    × ((e : Entry) → In e expired → e.when ≤ℤ pos 130)
    × ((e : Entry) → In e q'.timers → ltb_ℤ (pos 130) e.when ≡ true)
get_expired-splits_example = get_expired-splits running.0 (pos 130) running.2

handle_read-IsArmed_example :
    (q' : TimerQueue) × (handle_read running.0 callbacks (pos 165) ≡ some q') × IsArmed q'
handle_read-IsArmed_example = handle_read-IsArmed running.0 callbacks (pos 165) running.2
