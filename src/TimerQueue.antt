-- ===== src/TimerQueue.antt =====
-- net/TimerQueue.h, net/TimerQueue.cc, net/Timer.h, net/Timer.cc and net/TimerId.h, in the loop's
-- thread. A Timer * is a number, under which the heap has the timer; a time is in microseconds.
-- `none` is an assert that fails or a read of a deleted timer. The product of an interval and
-- kMicroSecondsPerSecond, of doubles, is the field `delta`, and whether it repeats a field of its own.
mod Entries
mod Sets
mod Invariant
mod Insert
mod Cancel
mod Moved
mod Expiry
mod Expired
mod Remaining
mod Callbacks
mod Steps
mod Tests
use libanet.Common.{
  ℕ, zero, suc, ◌+◌, ◌-◌, Bool, true, false, not, ◌&&◌, ◌||◌, Option, none, some, List, [], ◌∷◌,
  ◌++◌, length, ◌==◌, ltb, if◌then◌else◌,
}
use libanet.Common.Int.{ℤ, pos, ◌+ℤ◌, ◌-ℤ◌, ◌/ℤ◌, ◌%ℤ◌, ◌*ℤ◌, ltb_ℤ}
use libanet.Common.Options.{◌>>=◌, ◌>>◌, check}
pub use libanet.TimerQueue.Entries.{
  Timer, Entry, lt_entry, eq_entry, ActiveTimerSet, no_timers, is_key,
}
unfoldable pub use libanet.TimerQueue.Entries.{
  restart, contains, insert_entry, erase_entry, insert_active, erase_active,
}

-- `armed` is the time for which the timerfd is set, and `num_created` is Timer::s_numCreated_.
pub record TimerQueue : Type 0 where
  pub heap : ℕ → Option Timer
  pub num_created : ℕ
  pub timers : List Entry
  pub active_timers : ActiveTimerSet
  pub calling_expired_timers : Bool
  pub canceling_timers : ActiveTimerSet
  pub armed : Option ℤ

abbrev pub store : (ℕ → Option Timer) → ℕ → Option Timer → ℕ → Option Timer
store heap p t p' = if p' == p then t else heap p'

-- The highest address, UINTPTR_MAX, is that of no timer.
abbrev pub uintptr_max : ℕ
uintptr_max = 18446744073709551615

-- `new Timer`. An address in use, or the highest one, is never handed out: nothing happens.
unfoldable pub new_timer : TimerQueue → ℕ → ℤ → ℤ → Bool → TimerQueue
new_timer q p when delta repeat =
    let t : Timer = record {
      expiration = when;
      delta = delta;
      repeat = repeat;
      sequence = suc q.num_created;
    } in
    record q { heap = store q.heap p (some t); num_created = suc q.num_created }

abbrev pub is_free : TimerQueue → ℕ → Bool
is_free q p = ltb p uintptr_max && elim (q.heap p) [ none ↦ true | some t ↦ false ]

abbrev pub same_sizes : TimerQueue → Bool
same_sizes q = length q.timers == q.active_timers.size

abbrev pub is_earliest : ℤ → List Entry → Bool
is_earliest when [] = true
is_earliest when (x ∷ xs) = ltb_ℤ when x.when

-- The queue and earliestChanged
unfoldable pub insert : TimerQueue → ℕ → Option (TimerQueue × Bool)
unfolding contains insert_entry insert_active
insert q p = do
  check (same_sizes q)
  t ← q.heap p
  let e : Entry = record { when = t.expiration; timer = p }
  check (not (contains e q.timers))
  check (not (q.active_timers.has p t.sequence))
  let q' = record q {
    timers = insert_entry e q.timers;
    active_timers = insert_active q.active_timers p t.sequence;
  }
  check (same_sizes q')
  some (q', is_earliest t.expiration q.timers)

unfoldable pub reset_timerfd : TimerQueue → ℤ → TimerQueue
reset_timerfd q expiration = record q { armed = some expiration }

unfoldable pub add_timer_in_loop : TimerQueue → ℕ → Option TimerQueue
unfolding insert reset_timerfd
add_timer_in_loop q p = do
  (q', earliest_changed) ← insert q p
  t ← q'.heap p
  some (if earliest_changed then reset_timerfd q' t.expiration else q')

-- addTimer from the loop's thread, with the address that `new` returns
unfoldable pub add_timer : TimerQueue → ℕ → ℤ → ℤ → Bool → Option TimerQueue
unfolding new_timer add_timer_in_loop
add_timer q p when delta repeat =
    if is_free q p then add_timer_in_loop (new_timer q p when delta repeat) p else some q

-- cancelInLoop, for a timer that is active
unfoldable pub cancel_active : TimerQueue → ℕ → ℕ → Option TimerQueue
unfolding contains erase_entry erase_active
cancel_active q p s = do
  t ← q.heap p
  let e : Entry = record { when = t.expiration; timer = p }
  check (contains e q.timers)
  some (record q {
    timers = erase_entry e q.timers;
    heap = store q.heap p none;
    active_timers = erase_active q.active_timers p s;
  })

-- A TimerId is an address and a sequence number.
unfoldable pub cancel_in_loop : TimerQueue → ℕ → ℕ → Option TimerQueue
unfolding insert_active
cancel_in_loop q p s = do
  check (same_sizes q)
  q' ←
      (if q.active_timers.has p s
        then cancel_active q p s
        else if q.calling_expired_timers
        then some (record q { canceling_timers = insert_active q.canceling_timers p s })
        else some q)
  check (same_sizes q')
  some q'

-- Whether an entry comes before the sentry of getExpired.
abbrev pub is_expired : ℤ → Entry → Bool
is_expired now e = lt_entry e (record { when = now; timer = uintptr_max })

-- std::set::lower_bound: what stands before the sentry, and the rest.
unfoldable pub expired_part : ℤ → List Entry → List Entry
expired_part now [] = []
expired_part now (x ∷ xs) =
    let rest = expired_part now xs in if is_expired now x then x ∷ rest else []

unfoldable pub later_part : ℤ → List Entry → List Entry
later_part now [] = []
later_part now (x ∷ xs) = let rest = later_part now xs in if is_expired now x then rest else x ∷ xs

-- assert(end == timers_.end() || now < end->first)
abbrev pub begins_after : ℤ → List Entry → Bool
begins_after now [] = true
begins_after now (x ∷ xs) = ltb_ℤ now x.when

-- The loop of getExpired
unfoldable pub erase_expired :
    (ℕ → Option Timer) → List Entry → ActiveTimerSet → Option ActiveTimerSet
unfolding erase_active
erase_expired heap [] a = some a
erase_expired heap (e ∷ es) a = do
  t ← heap e.timer
  check (a.has e.timer t.sequence)
  erase_expired heap es (erase_active a e.timer t.sequence)

unfoldable pub get_expired : TimerQueue → ℤ → Option (TimerQueue × List Entry)
unfolding expired_part later_part erase_expired
get_expired q now = do
  check (same_sizes q)
  let expired = expired_part now q.timers
  let later = later_part now q.timers
  check (begins_after now later)
  active ← erase_expired q.heap expired q.active_timers
  let q' = record q { timers = later; active_timers = active }
  check (same_sizes q')
  some (q', expired)

-- What the callback of a timer does with the queue.
pub data Action : Type 0 where
  adds : ℕ → ℤ → ℤ → Bool → Action
  cancels : ℕ → ℕ → Action

unfoldable pub act : TimerQueue → Action → Option TimerQueue
unfolding add_timer cancel_in_loop
act q (adds p when delta repeat) = add_timer q p when delta repeat
act q (cancels p s) = cancel_in_loop q p s

unfoldable pub act_all : TimerQueue → List Action → Option TimerQueue
unfolding act
act_all q [] = some q
act_all q (a ∷ actions) = do q' ← act q a; act_all q' actions

-- The callbacks of the expired timers, one after the other.
unfoldable pub run_all : TimerQueue → (ℕ → List Action) → List Entry → Option TimerQueue
unfolding act_all
run_all q callbacks [] = some q
run_all q callbacks (e ∷ es) = do
  t ← q.heap e.timer
  q' ← act_all q (callbacks e.timer)
  run_all q' callbacks es

-- The loop of reset
unfoldable pub reset_all : TimerQueue → List Entry → ℤ → Option TimerQueue
unfolding restart
reset_all q [] now = some q
reset_all q (e ∷ es) now = do
  t ← q.heap e.timer
  q' ←
      (if t.repeat && not (q.canceling_timers.has e.timer t.sequence)
        then (do
          r ← insert (record q { heap = store q.heap e.timer (some (restart t now)) }) e.timer
          some r.0)
        else some (record q { heap = store q.heap e.timer none }))
  reset_all q' es now

-- The expiration of the first timer, or an invalid time
unfoldable pub next_expire : (ℕ → Option Timer) → List Entry → Option ℤ
next_expire heap [] = some (pos 0)
next_expire heap (x ∷ xs) = do t ← heap x.timer; some t.expiration

unfoldable pub reset : TimerQueue → List Entry → ℤ → Option TimerQueue
unfolding reset_all next_expire reset_timerfd
reset q expired now = do
  q' ← reset_all q expired now
  next ← next_expire q'.heap q'.timers
  some (if ltb_ℤ (pos 0) next then reset_timerfd q' next else q')

-- The timerfd has fired, so it is no longer set.
unfoldable pub handle_read : TimerQueue → (ℕ → List Action) → ℤ → Option TimerQueue
unfolding get_expired run_all reset
handle_read q callbacks now = do
  r ← get_expired (record q { armed = none }) now
  q' ←
      run_all (record r.0 { calling_expired_timers = true; canceling_timers = no_timers }) callbacks
        r.1
  reset (record q' { calling_expired_timers = false }) r.1 now

-- What the loop does with the queue: calls of addTimer and cancel, and an expiration.
pub data Event : Type 0 where
  acts : Action → Event
  fires : (ℕ → List Action) → ℤ → Event

unfoldable pub step : TimerQueue → Event → Option TimerQueue
unfolding act handle_read
step q (acts a) = act q a
step q (fires callbacks now) = handle_read q callbacks now

unfoldable pub run : TimerQueue → List Event → Option TimerQueue
unfolding step
run q [] = some q
run q (e ∷ events) = do q' ← step q e; run q' events

-- detail::howMuchTimeFromNow: seconds and nanoseconds
unfoldable pub how_much_time_from_now : ℤ → ℤ → ℤ × ℤ
unfolding ◌-ℤ◌ ◌*ℤ◌
how_much_time_from_now when now =
    let us = when -ℤ now in
    let microseconds = if ltb_ℤ us (pos 100) then pos 100 else us in
    (microseconds /ℤ 1000000, (microseconds %ℤ 1000000) *ℤ pos 1000)
