-- ===== src/TimerQueue/Steps.antt =====
-- `reset` and `handleRead` of net/TimerQueue.cc, and runs of the queue.
use libanet.Common.{
  ℕ, ◌≡◌, inl, inr, refl, sym, ap, ◌∙◌, true, false, not, ◌&&◌, Option, none, some, List, [], ◌∷◌,
  ◌++◌, Bool-cases,
}
use mathlib.Core.Bool.{false≢true}
use libanet.Common.Int.{ℤ, pos, ltb_ℤ, ◌≤ℤ◌}
use libanet.TimerQueue.{
  Timer, Entry, TimerQueue, store, restart, reset_timerfd, reset_all, next_expire, reset,
  get_expired, handle_read, Action, no_timers, Event, acts, fires, step, run, expired_part,
}
use libanet.TimerQueue.Sets.{In}
use libanet.TimerQueue.Expiry.{
  expired_part-later_part, In-expired_part, In-later_part, is_expired-le, is_expired-lt,
}
use libanet.TimerQueue.Invariant.{
  Inv, IsScheduled, IsIdle, IsApart, AreDistinct, store_self, store_other,
}
use libanet.TimerQueue.Insert.{inserted, insert-inserted, inserted-Inv, inserted-AllIdle}
use libanet.TimerQueue.Moved.{moved-Inv, moved-AllIdle, IsApart-ne, store-agrees}
use libanet.TimerQueue.Remaining.{
  remaining, expired-AreDistinct, get_expired-remaining, remaining-Inv, remaining-AllIdle,
}
use libanet.TimerQueue.Callbacks.{Holds, flags-Holds, act-Done, run_all-Done}

-- An expired timer is written, or deleted.
stored-Holds :
    (e : Entry) (es : List Entry) (q : TimerQueue) (t : Option Timer)
    → IsApart e.timer es
    → Holds (e ∷ es) q
    → Holds es (record q { heap = store q.heap e.timer t })
stored-Holds e es q t apart h = record {
  inv = moved-Inv q _ _ _ _ _ (store-agrees q e.timer t h.idle.0.absent) h.inv;
  idle =
      moved-AllIdle q _ _ _ _ _ es
        (λ f m. store_other q.heap e.timer f.timer t (IsApart-ne e.timer f es apart m)) h.idle.1;
}

abbrev stored-IsIdle :
    (q : TimerQueue) (p : ℕ) (t : Timer)
    → IsIdle q p
    → IsIdle (record q { heap = store q.heap p (some t) }) p
stored-IsIdle q p t i = record {
  timer = t;
  stored = store_self q.heap p (some t);
  address = i.address;
  absent = i.absent;
}

reset_all-Done :
    (es : List Entry) (q : TimerQueue) (now : ℤ)
    → AreDistinct es
    → Holds es q
    → (q' : TimerQueue) × (reset_all q es now ≡ some q') × Inv q'
unfolding reset_all
reset_all-Done [] q now d h = (q, refl, h.inv)
reset_all-Done (e ∷ es) q now d h =
    let i = h.idle.0 in
    elim (Bool-cases (i.timer.repeat && not (q.canceling_timers.has e.timer i.timer.sequence))) [
      | inl again ↦
          let t = restart i.timer now in
          let q1 : TimerQueue = record q { heap = store q.heap e.timer (some t) } in
          let h1 = stored-Holds e es q (some t) d.0 h in
          let i1 = stored-IsIdle q e.timer t i in
          let k : Holds es (inserted q1 e.timer t) = record {
            inv = inserted-Inv q1 e.timer h1.inv i1;
            idle = inserted-AllIdle q1 e.timer h1.inv i1 es d.0 h1.idle;
          } in
          let rest = reset_all-Done es (inserted q1 e.timer t) now d.1 k in
          (rest.0, rw (i.stored, again, insert-inserted q1 e.timer h1.inv i1) rest.1, rest.2)
      | inr never ↦
          let rest = reset_all-Done es _ now d.1 (stored-Holds e es q none d.0 h) in
          (rest.0, rw (i.stored, never) rest.1, rest.2)
    ]

-- The first timer's time, or an invalid one.
next_expire_lem :
    (q : TimerQueue)
    → Inv q
    → (w : ℤ) × (next_expire q.heap q.timers ≡ some w)
      × ((e : Entry) (rest : List Entry) → q.timers ≡ e ∷ rest → w ≡ e.when)
unfolding next_expire
next_expire_lem q v = first q.timers v.scheduled
  where
    first :
        (ts : List Entry)
        → ((e : Entry) → In e ts → IsScheduled q e)
        → (w : ℤ) × (next_expire q.heap ts ≡ some w)
          × ((e : Entry) (rest : List Entry) → ts ≡ e ∷ rest → w ≡ e.when)
    first [] k = (pos 0, refl, λ e rest h. cc)
    first (x ∷ xs) k =
        let s = k x (inl refl) in (s.timer.expiration, rw s.stored refl, λ e rest h. s.time ∙ cc)

-- If there is a first timer and its time is valid, the timerfd is set for it.
abbrev pub IsArmed : TimerQueue → Type 0
IsArmed q =
    (e : Entry) (rest : List Entry)
    → q.timers ≡ e ∷ rest
    → ltb_ℤ (pos 0) e.when ≡ true
    → q.armed ≡ some e.when

reset-Done :
    (es : List Entry) (q : TimerQueue) (now : ℤ)
    → AreDistinct es
    → Holds es q
    → (q' : TimerQueue) × (reset q es now ≡ some q') × Inv q' × IsArmed q'
unfolding reset
reset-Done es q now d h =
    let r = reset_all-Done es q now d h in
    let n = next_expire_lem r.0 r.2 in
    elim (Bool-cases (ltb_ℤ (pos 0) n.0)) [
      | inl valid ↦ (
        reset_timerfd r.0 n.0,
        rw (r.1, n.1, valid) refl,
        (flags-Holds [] r.0 _ _ (some n.0) (record { inv = r.2; idle = tt })).inv,
        λ e rest k later. ap some (n.2 e rest k),
      )
      | inr invalid ↦ (
        r.0,
        rw (r.1, n.1, invalid) refl,
        r.2,
        λ e rest k later.
            absurd (false≢true (sym invalid ∙ ap (ltb_ℤ (pos 0)) (n.2 e rest k) ∙ later)),
      )
    ]

handle_read-Inv :
    (q : TimerQueue) (callbacks : ℕ → List Action) (now : ℤ)
    → Inv q
    → (q' : TimerQueue) × (handle_read q callbacks now ≡ some q') × Inv q' × IsArmed q'
unfolding handle_read
handle_read-Inv q callbacks now v =
    let q0 : TimerQueue = record q { armed = none } in
    let v0 = (flags-Holds [] q _ _ none (record { inv = v; idle = tt })).inv in
    let es = expired_part now q.timers in
    let left = remaining q0 now v0 in
    let start : Holds es
        (record left { calling_expired_timers = true; canceling_timers = no_timers }) =
      flags-Holds es left true no_timers none
        (record { inv = remaining-Inv q0 now v0; idle = remaining-AllIdle q0 now v0 }) in
    let ran = run_all-Done es _ callbacks es (λ e m. m) start in
    let done =
      reset-Done es (record ran.0 { calling_expired_timers = false }) now
        (expired-AreDistinct q0 now v0)
        (flags-Holds es ran.0 false ran.0.canceling_timers ran.0.armed ran.2) in
    (done.0, rw (get_expired-remaining q0 now v0, ran.1) done.1, done.2, done.3)

step-Inv : (q : TimerQueue) (e : Event) → Inv q → (q' : TimerQueue) × (step q e ≡ some q') × Inv q'
unfolding step
step-Inv q (acts a) v =
    let r = act-Done [] q a (record { inv = v; idle = tt }) in (r.0, r.1, r.2.inv)
step-Inv q (fires callbacks now) v = let r = handle_read-Inv q callbacks now v in (r.0, r.1, r.2)

-- From the invariant, no course of calls of addTimer and cancel and of expirations, with callbacks
-- that add and cancel timers as they like, makes an assert fail or reads a timer that was deleted,
-- and the invariant holds at its end.
pub run-Inv :
    (q : TimerQueue) (events : List Event)
    → Inv q
    → (q' : TimerQueue) × (run q events ≡ some q') × Inv q'
unfolding run
run-Inv q [] v = (q, refl, v)
run-Inv q (e ∷ events) v =
    let r = step-Inv q e v in let rest = run-Inv r.0 events r.2 in (rest.0, rw r.1 rest.1, rest.2)

-- From the invariant, getExpired does not abort: it takes the first timers away, those whose time is
-- no later than now, and leaves those whose time is later.
pub get_expired-splits :
    (q : TimerQueue) (now : ℤ)
    → Inv q
    → (q' : TimerQueue) × (expired : List Entry) × (get_expired q now ≡ some (q', expired))
      × (expired ++ q'.timers ≡ q.timers)
      × ((e : Entry) → In e expired → e.when ≤ℤ now)
      × ((e : Entry) → In e q'.timers → ltb_ℤ now e.when ≡ true)
get_expired-splits q now v = (
  remaining q now v,
  expired_part now q.timers,
  get_expired-remaining q now v,
  expired_part-later_part now q.timers,
  λ e m. is_expired-le now e (In-expired_part now e q.timers m).1,
  λ e m.
      let l = In-later_part now e q.timers v.sorted m in
      is_expired-lt now e (v.scheduled e l.0).address l.1,
)

-- From the invariant, when the expired timers have been handled, the timerfd is set for the first of
-- the timers, if there is one and its time is valid.
pub handle_read-IsArmed :
    (q : TimerQueue) (callbacks : ℕ → List Action) (now : ℤ)
    → Inv q
    → (q' : TimerQueue) × (handle_read q callbacks now ≡ some q') × IsArmed q'
handle_read-IsArmed q callbacks now v = let r = handle_read-Inv q callbacks now v in (r.0, r.1, r.3)
