-- ===== src/TimerQueue/Moved.antt =====
-- Changes of a timer queue that leave both of its sets.
use libanet.Common.{
  ℕ, subst, ◌≡◌, ◌≢◌, refl, sym, ◌∙◌, Bool, true, false, Option, List, [], ◌∷◌, arith, inl, inr,
}
use libanet.Common.Int.{ℤ}
use libanet.TimerQueue.{Timer, Entry, ActiveTimerSet, TimerQueue, store}
use libanet.TimerQueue.Sets.{In}
use libanet.TimerQueue.Invariant.{IsScheduled, IsActive, Inv, IsIdle, AllIdle, IsApart, store_other}

module _ (q : TimerQueue) (h : ℕ → Option Timer) (n : ℕ) (b : Bool) (k : ActiveTimerSet)
    (a : Option ℤ) where
  abbrev pub moved : TimerQueue
  moved = record q {
    heap = h;
    num_created = n;
    calling_expired_timers = b;
    canceling_timers = k;
    armed = a;
  }

  pub moved-Inv : ((p s : ℕ) → q.active_timers.has p s ≡ true → h p ≡ q.heap p) → Inv q → Inv moved
  moved-Inv agree v = record {
    sorted = v.sorted;
    sizes = v.sizes;
    scheduled = λ e m. scheduled_still e (v.scheduled e m);
    active = λ p s has. active_still p s has (v.active p s has);
  }
    where
      scheduled_still : (e : Entry) → IsScheduled q e → IsScheduled moved e
      scheduled_still e x = record {
        timer = x.timer;
        stored = agree e.timer x.timer.sequence x.listed ∙ x.stored;
        time = x.time;
        listed = x.listed;
        address = x.address;
      }

      active_still :
          (p s : ℕ) → q.active_timers.has p s ≡ true → IsActive q p s → IsActive moved p s
      active_still p s has x = record {
        timer = x.timer;
        stored = agree p s has ∙ x.stored;
        same = x.same;
        listed = x.listed;
      }

  moved-IsIdle : (p : ℕ) → h p ≡ q.heap p → IsIdle q p → IsIdle moved p
  moved-IsIdle p agree i = record {
    timer = i.timer;
    stored = agree ∙ i.stored;
    address = i.address;
    absent = i.absent;
  }

  pub moved-AllIdle :
      (es : List Entry)
      → ((e : Entry) → In e es → h e.timer ≡ q.heap e.timer)
      → AllIdle q es
      → AllIdle moved es
  moved-AllIdle [] agree i = tt
  moved-AllIdle (e ∷ es) agree i =
      (moved-IsIdle e.timer (agree e (inl refl)) i.0, moved-AllIdle es (λ x m. agree x (inr m)) i.1)

pub IsApart-ne : (p : ℕ) (e : Entry) (es : List Entry) → IsApart p es → In e es → e.timer ≢ p
IsApart-ne p e [] a m = absurd m
IsApart-ne p e (x ∷ xs) a (inl same) = subst (λ y. y.timer ≢ p) (sym same) a.0
IsApart-ne p e (x ∷ xs) a (inr m) = IsApart-ne p e xs a.1 m

-- A timer that is not active may be written.
pub store-agrees :
    (q : TimerQueue) (p : ℕ) (t : Option Timer)
    → ((s : ℕ) → q.active_timers.has p s ≡ false)
    → (p' s : ℕ) → q.active_timers.has p' s ≡ true
    → store q.heap p t p' ≡ q.heap p'
store-agrees q p t absent p' s h = store_other q.heap p p' t other
  where
    other : p' ≢ p
    other e =
        let here = subst (λ k. q.active_timers.has k s ≡ true) e h in ground (arith, here, absent s)
