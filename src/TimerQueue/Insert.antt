-- ===== src/TimerQueue/Insert.antt =====
-- `insert` and `addTimerInLoop` of net/TimerQueue.cc keep the invariant.
use libanet.Common.{
  ℕ, suc, ◌≡◌, ◌≢◌, inl, inr, refl, sym, ap, subst, ◌∙◌, true, ◌||◌, some, List, [], ◌∷◌, arith,
  Bool-cases, ◌==◌,
}
use libanet.TimerQueue.{
  Timer, Entry, TimerQueue, is_key, insert_active, insert_entry, insert, is_earliest,
}
use libanet.TimerQueue.Sets.{
  In, insert_entry-In, In-insert_entry_self, In-insert_entry, length-insert_entry,
  insert_entry-IsSorted,
}
use libanet.TimerQueue.Invariant.{
  entry, IsScheduled, IsActive, Inv, IsIdle, AllIdle, IsApart, is_key_self, is_key-eq, is_key-ne,
  or_listed, idle-contains,
}

pub same_length : (m n : ℕ) → m ≡ n → (m == n) ≡ true
same_length m n h = ground arith

-- The queue with the timer in both sets.
unfoldable pub inserted : TimerQueue → ℕ → Timer → TimerQueue
inserted q p t = record q {
  timers = insert_entry (entry t.expiration p) q.timers;
  active_timers = record {
    has = λ p' s'. is_key p t.sequence p' s' || q.active_timers.has p' s';
    size = suc q.active_timers.size;
  };
}

pub inserted-heap : (q : TimerQueue) (p : ℕ) (t : Timer) → (inserted q p t).heap p ≡ q.heap p
unfolding inserted
inserted-heap q p t = refl

module _ (q : TimerQueue) (p : ℕ) (v : Inv q) (i : IsIdle q p) where
  pub insert-inserted :
      insert q p ≡ some (inserted q p i.timer, is_earliest i.timer.expiration q.timers)
  unfolding insert inserted insert_active
  insert-inserted =
      rw
        (
          same_length _ _ v.sizes,
          i.stored,
          idle-contains q p i.timer.expiration v i,
          i.absent i.timer.sequence,
          same_length _ _
              (length-insert_entry (entry i.timer.expiration p) q.timers ∙ ap suc v.sizes),
        )
        refl

  inserted-IsScheduled :
      (e : Entry) → In e (inserted q p i.timer).timers → IsScheduled (inserted q p i.timer) e
  unfolding inserted
  inserted-IsScheduled e m = elim (insert_entry-In (entry i.timer.expiration p) e q.timers m) [
    | inl new ↦ subst (IsScheduled (inserted q p i.timer)) (sym new) (record {
      timer = i.timer;
      stored = i.stored;
      time = refl;
      listed =
          ap (λ b. b || q.active_timers.has p i.timer.sequence) (is_key_self p i.timer.sequence);
      address = i.address;
    })
    | inr old ↦
        let k = v.scheduled e old in
        record {
          timer = k.timer;
          stored = k.stored;
          time = k.time;
          listed = or_listed (is_key p i.timer.sequence e.timer k.timer.sequence) _ k.listed;
          address = k.address;
        }
  ]

  active_then :
      (p' s' : ℕ)
      → (inserted q p i.timer).active_timers.has p' s' ≡ true
      → IsActive (inserted q p i.timer) p' s'
  unfolding inserted
  active_then p' s' h = elim (Bool-cases (is_key p i.timer.sequence p' s')) [
    | inl new ↦
        let (same_p, same_s) = is_key-eq p i.timer.sequence p' s' new in
        record {
          timer = i.timer;
          stored = ap q.heap same_p ∙ i.stored;
          same = sym same_s;
          listed =
              subst
                (λ k.
                  In (entry i.timer.expiration k)
                    (insert_entry (entry i.timer.expiration p) q.timers))
                (sym same_p) (In-insert_entry_self (entry i.timer.expiration p) q.timers);
        }
    | inr other ↦
        let k = v.active p' s' (sym (ap (λ b. b || q.active_timers.has p' s') other) ∙ h) in
        record {
          timer = k.timer;
          stored = k.stored;
          same = k.same;
          listed =
              In-insert_entry (entry i.timer.expiration p) (entry k.timer.expiration p') q.timers
                k.listed;
        }
  ]

  pub inserted-Inv : Inv (inserted q p i.timer)
  unfolding inserted
  inserted-Inv = record {
    sorted =
        insert_entry-IsSorted (entry i.timer.expiration p) q.timers
          (idle-contains q p i.timer.expiration v i) v.sorted;
    sizes = length-insert_entry (entry i.timer.expiration p) q.timers ∙ ap suc v.sizes;
    scheduled = inserted-IsScheduled;
    active = active_then;
  }

  inserted-IsIdle : (p' : ℕ) → p' ≢ p → IsIdle q p' → IsIdle (inserted q p i.timer) p'
  unfolding inserted
  inserted-IsIdle p' n k = record {
    timer = k.timer;
    stored = k.stored;
    address = k.address;
    absent = λ s.
        ap (λ b. b || q.active_timers.has p' s) (is_key-ne p i.timer.sequence p' s n) ∙ k.absent s;
  }

  pub inserted-AllIdle :
      (es : List Entry) → IsApart p es → AllIdle q es → AllIdle (inserted q p i.timer) es
  inserted-AllIdle [] a k = tt
  inserted-AllIdle (e ∷ es) a k = (inserted-IsIdle e.timer a.0 k.0, inserted-AllIdle es a.1 k.1)
