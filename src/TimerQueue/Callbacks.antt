-- ===== src/TimerQueue/Callbacks.antt =====
-- What the callbacks of timers do with the queue of net/TimerQueue.cc, while some timers have expired.
use libanet.Common.{
  ℕ, ◌<◌, ◌≡◌, inl, inr, refl, sym, ap, subst, ◌∙◌, Bool, true, Option, none, some, List, [], ◌∷◌,
  arith, Bool-cases, Option-cases,
}
use libanet.Common.Int.{ℤ}
use libanet.TimerQueue.{
  Entry, ActiveTimerSet, TimerQueue, insert_active, uintptr_max, is_earliest, reset_timerfd,
  new_timer, is_free, add_timer_in_loop, add_timer, cancel_in_loop, Action, adds, cancels, act,
  act_all, run_all,
}
use libanet.TimerQueue.Sets.{In}
use libanet.TimerQueue.Invariant.{Inv, IsIdle, AllIdle, IsApart, store_self, store_other, has-ne}
use libanet.TimerQueue.Insert.{
  inserted, inserted-heap, insert-inserted, inserted-Inv, inserted-AllIdle, same_length,
}
use libanet.TimerQueue.Cancel.{
  canceled, found, cancel_active-canceled, canceled-Inv, canceled-AllIdle,
}
use libanet.TimerQueue.Moved.{moved, moved-Inv, moved-AllIdle, IsApart-ne, store-agrees}

-- The invariant, with the expired timers in neither set.
pub record Holds (es : List Entry) (q : TimerQueue) : Type 0 where
  pub inv : Inv q
  pub idle : AllIdle q es

pub flags-Holds :
    (es : List Entry) (q : TimerQueue) (b : Bool) (k : ActiveTimerSet) (a : Option ℤ)
    → Holds es q
    → Holds es (moved q q.heap q.num_created b k a)
flags-Holds es q b k a h = record {
  inv = moved-Inv q q.heap q.num_created b k a (λ p s x. refl) h.inv;
  idle = moved-AllIdle q q.heap q.num_created b k a es (λ e m. refl) h.idle;
}

-- A free address is of no timer.
free-none : (q : TimerQueue) (p : ℕ) → is_free q p ≡ true → (q.heap p ≡ none) × (p < uintptr_max)
free-none q p h = elim (Option-cases (q.heap p)) [
  | inl free ↦ (free, ground arith)
  | inr (t, used) ↦ absurd (ground (arith, used))
]

idle-used :
    (q : TimerQueue) (p : ℕ) (es : List Entry) → q.heap p ≡ none → AllIdle q es → IsApart p es
idle-used q p [] h k = tt
idle-used q p (e ∷ es) h k = ((λ same. used (ap q.heap same ∙ h)), idle-used q p es h k.1)
  where
    used : ¬ (q.heap e.timer ≡ none)
    used none_there = ground (arith, k.0.stored, none_there)

module _ (es : List Entry) (q : TimerQueue) (h : Holds es q) where
  -- A timer that was just created.
  module _ (p : ℕ) (free : q.heap p ≡ none) (low : p < uintptr_max) (when delta : ℤ)
      (repeat : Bool) where
    created : TimerQueue
    created = new_timer q p when delta repeat

    created-Holds : Holds es created
    unfolding created new_timer
    created-Holds = record {
      inv = moved-Inv q _ _ _ _ _ (store-agrees q p _ (λ s. has-ne q p s h.inv free)) h.inv;
      idle =
          moved-AllIdle q _ _ _ _ _ es
            (λ e m.
              store_other q.heap p e.timer _ (IsApart-ne p e es (idle-used q p es free h.idle) m))
            h.idle;
    }

    created-IsIdle : IsIdle created p
    unfolding created new_timer
    created-IsIdle = record {
      timer = _;
      stored = store_self q.heap p _;
      address = low;
      absent = λ s. has-ne q p s h.inv free;
    }

-- What an operation comes to: it does not abort, and the invariant holds.
abbrev pub Done : List Entry → Option TimerQueue → Type 0
Done es r = (q' : TimerQueue) × (r ≡ some q') × Holds es q'

add_timer_in_loop-Done :
    (es : List Entry) (q : TimerQueue) (p : ℕ)
    → Holds es q
    → IsIdle q p
    → IsApart p es
    → Done es (add_timer_in_loop q p)
unfolding add_timer_in_loop reset_timerfd
add_timer_in_loop-Done es q p h i apart =
    let q' = inserted q p i.timer in
    let k : Holds es q' = record {
      inv = inserted-Inv q p h.inv i;
      idle = inserted-AllIdle q p h.inv i es apart h.idle;
    } in
    elim (Bool-cases (is_earliest i.timer.expiration q.timers)) [
      | inl first ↦ (
        record q' { armed = some i.timer.expiration },
        rw (insert-inserted q p h.inv i, still_stored, first) refl,
        flags-Holds es q' q'.calling_expired_timers q'.canceling_timers (some i.timer.expiration) k,
      )
      | inr later ↦ (q', rw (insert-inserted q p h.inv i, still_stored, later) refl, k)
    ]
  where
    still_stored : (inserted q p i.timer).heap p ≡ some i.timer
    still_stored = inserted-heap q p i.timer ∙ i.stored

pub add_timer-Done :
    (es : List Entry) (q : TimerQueue) (p : ℕ) (when delta : ℤ) (repeat : Bool)
    → Holds es q
    → Done es (add_timer q p when delta repeat)
unfolding add_timer created
add_timer-Done es q p when delta repeat h = elim (Bool-cases (is_free q p)) [
  | inl free ↦
      let (none_there, low) = free-none q p free in
      rw free (
        add_timer_in_loop-Done es (created es q h p none_there low when delta repeat) p
          (created-Holds es q h p none_there low when delta repeat)
          (created-IsIdle es q h p none_there low when delta repeat)
          (idle-used q p es none_there h.idle))
  | inr used ↦ (q, rw used refl, h)
]

pub cancel_in_loop-Done :
    (es : List Entry) (q : TimerQueue) (p s : ℕ) → Holds es q → Done es (cancel_in_loop q p s)
unfolding cancel_in_loop
cancel_in_loop-Done es q p s h = elim (Bool-cases (q.active_timers.has p s)) [
  | inl has ↦
      let inv' = canceled-Inv q p s h.inv has in
      (
        canceled q p s (found q p s h.inv has).timer,
        rw
            (
              same_length _ _ h.inv.sizes,
              has,
              cancel_active-canceled q p s h.inv has,
              same_length _ _ inv'.sizes,
            )
            refl,
        record { inv = inv'; idle = canceled-AllIdle q p s h.inv has es h.idle },
      )
  | inr gone ↦ elim (Bool-cases q.calling_expired_timers) [
    | inl calling ↦ (
      record q { canceling_timers = insert_active q.canceling_timers p s },
      rw (same_length _ _ h.inv.sizes, gone, calling) (rw (same_length _ _ h.inv.sizes) refl),
      flags-Holds es q q.calling_expired_timers (insert_active q.canceling_timers p s) q.armed h,
    )
    | inr quiet ↦ (
      q,
      rw (same_length _ _ h.inv.sizes, gone, quiet) (rw (same_length _ _ h.inv.sizes) refl),
      h,
    )
  ]
]

pub act-Done : (es : List Entry) (q : TimerQueue) (a : Action) → Holds es q → Done es (act q a)
unfolding act
act-Done es q (adds p when delta repeat) h = add_timer-Done es q p when delta repeat h
act-Done es q (cancels p s) h = cancel_in_loop-Done es q p s h

act_all-Done :
    (es : List Entry) (q : TimerQueue) (actions : List Action)
    → Holds es q
    → Done es (act_all q actions)
unfolding act_all
act_all-Done es q [] h = (q, refl, h)
act_all-Done es q (a ∷ actions) h =
    let r = act-Done es q a h in
    let rest = act_all-Done es r.0 actions r.2 in (rest.0, rw r.1 rest.1, rest.2)

one_of : (es : List Entry) (q : TimerQueue) (e : Entry) → In e es → AllIdle q es → IsIdle q e.timer
one_of [] q e m k = absurd m
one_of (x ∷ xs) q e (inl same) k = subst (λ y. IsIdle q y.timer) (sym same) k.0
one_of (x ∷ xs) q e (inr m) k = one_of xs q e m k.1

-- Whatever the callbacks of expired timers do.
pub run_all-Done :
    (es : List Entry) (q : TimerQueue) (callbacks : ℕ → List Action) (fs : List Entry)
    → ((e : Entry) → In e fs → In e es)
    → Holds es q
    → Done es (run_all q callbacks fs)
unfolding run_all
run_all-Done es q callbacks [] part h = (q, refl, h)
run_all-Done es q callbacks (e ∷ fs) part h =
    let i = one_of es q e (part e (inl refl)) h.idle in
    let r = act_all-Done es q (callbacks e.timer) h in
    let rest = run_all-Done es r.0 callbacks fs (λ x m. part x (inr m)) r.2 in
    (rest.0, rw (i.stored, r.1) rest.1, rest.2)
