-- ===== src/TimerQueue/Cancel.antt =====
-- `cancelInLoop` of net/TimerQueue.cc keeps the invariant.
use libanet.Common.{
  ℕ, ◌-◌, ◌≡◌, ◌≢◌, refl, sym, ap, subst, ◌∙◌, Bool, true, false, not, ◌&&◌, Option, none, some,
  List, [], ◌∷◌, arith,
}
use libanet.TimerQueue.{
  Timer, Entry, TimerQueue, is_key, erase_active, erase_entry, store, cancel_active,
}
use libanet.TimerQueue.Sets.{
  In, In-contains, In-erase_entry, erase_entry-In_ne, length-erase_entry, erase_entry-IsSorted,
  erase_entry-not_In, entry_eq,
}
use libanet.TimerQueue.Invariant.{
  entry, IsScheduled, IsActive, Inv, IsIdle, AllIdle, is_key-ne, idle-ne, store_other,
}

pub same_timer : (m n : Timer) (o : Option Timer) → o ≡ some m → o ≡ some n → m ≡ n
same_timer m n o h k = cc

-- The queue without the timer.
unfoldable pub canceled : TimerQueue → ℕ → ℕ → Timer → TimerQueue
canceled q p s t = record q {
  timers = erase_entry (entry t.expiration p) q.timers;
  heap = store q.heap p none;
  active_timers = record {
    has = λ p' s'. not (is_key p s p' s') && q.active_timers.has p' s';
    size = q.active_timers.size - 1;
  };
}

module _ (q : TimerQueue) (p s : ℕ) (v : Inv q) (has : q.active_timers.has p s ≡ true) where
  abbrev pub found : IsActive q p s
  found = v.active p s has

  abbrev here : Entry
  here = entry found.timer.expiration p

  pub cancel_active-canceled : cancel_active q p s ≡ some (canceled q p s found.timer)
  unfolding cancel_active canceled erase_active
  cancel_active-canceled =
      rw (found.stored, In-contains (entry found.timer.expiration p) q.timers found.listed, has)
        refl

  other_entry : (e : Entry) → In e (erase_entry here q.timers) → IsScheduled q e → e.timer ≢ p
  other_entry e m k same =
      let t =
        same_timer k.timer found.timer (q.heap p) (sym (ap q.heap same) ∙ k.stored) found.stored in
      let whole = entry_eq e here (sym k.time ∙ ap (λ x. x.expiration) t) same in
      erase_entry-not_In here q.timers v.sorted
        (subst (λ x. In x (erase_entry here q.timers)) whole m)

  left-IsScheduled :
      (e : Entry)
      → In e (canceled q p s found.timer).timers
      → IsScheduled (canceled q p s found.timer) e
  unfolding canceled
  left-IsScheduled e m =
      let k = v.scheduled e (In-erase_entry here e q.timers m) in
      let n = other_entry e m k in
      record {
        timer = k.timer;
        stored = store_other q.heap p e.timer none n ∙ k.stored;
        time = k.time;
        listed =
            ap (λ b. not b && q.active_timers.has e.timer k.timer.sequence)
              (is_key-ne p s e.timer k.timer.sequence n)
            ∙ k.listed;
        address = k.address;
      }

  was_active : (b c : Bool) → (not b && c) ≡ true → (b ≡ false) × (c ≡ true)
  was_active b c h = ground arith

  other_timer : (p' s' : ℕ) → is_key p s p' s' ≡ false → IsActive q p' s' → p' ≢ p
  other_timer p' s' n k same =
      let t =
        same_timer k.timer found.timer (q.heap p) (sym (ap q.heap same) ∙ k.stored) found.stored in
      let seq = sym k.same ∙ ap (λ x. x.sequence) t ∙ found.same in ground (arith, n, same, seq)

  active_then :
      (p' s' : ℕ)
      → (canceled q p s found.timer).active_timers.has p' s' ≡ true
      → IsActive (canceled q p s found.timer) p' s'
  unfolding canceled
  active_then p' s' h =
      let (n, old) = was_active (is_key p s p' s') (q.active_timers.has p' s') h in
      let k = v.active p' s' old in
      let other = other_timer p' s' n k in
      record {
        timer = k.timer;
        stored = store_other q.heap p p' none other ∙ k.stored;
        same = k.same;
        listed =
            erase_entry-In_ne here (entry k.timer.expiration p') q.timers
              (λ e. other (ap (λ x. x.timer) e)) k.listed;
      }

  pub canceled-Inv : Inv (canceled q p s found.timer)
  unfolding canceled
  canceled-Inv = record {
    sorted = erase_entry-IsSorted here q.timers v.sorted;
    sizes = omega (arith, length-erase_entry here q.timers found.listed, v.sizes);
    scheduled = left-IsScheduled;
    active = active_then;
  }

  canceled-IsIdle : (p' : ℕ) → IsIdle q p' → IsIdle (canceled q p s found.timer) p'
  unfolding canceled
  canceled-IsIdle p' i = record {
    timer = i.timer;
    stored = store_other q.heap p p' none (λ e. idle-ne q p' p s i has (sym e)) ∙ i.stored;
    address = i.address;
    absent = λ s'. gone (is_key p s p' s') (q.active_timers.has p' s') (i.absent s');
  }
    where
      gone : (b c : Bool) → c ≡ false → (not b && c) ≡ false
      gone b c h = ground arith

  pub canceled-AllIdle : (es : List Entry) → AllIdle q es → AllIdle (canceled q p s found.timer) es
  canceled-AllIdle [] k = tt
  canceled-AllIdle (e ∷ es) k = (canceled-IsIdle e.timer k.0, canceled-AllIdle es k.1)
