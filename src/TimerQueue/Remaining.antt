-- ===== src/TimerQueue/Remaining.antt =====
-- `getExpired` of net/TimerQueue.cc takes the timers whose time has come out of both sets.
use libanet.Common.{
  ℕ, ◌+◌, ◌≡◌, ◌⊎◌, inl, inr, refl, sym, ap, subst, ◌∙◌, true, false, some, List, [], ◌∷◌, length,
  length-append, arith, Bool-cases,
}
use libanet.Common.Int.{ℤ}
use libanet.TimerQueue.{
  Entry, ActiveTimerSet, TimerQueue, erase_expired, expired_part, later_part, is_expired,
  begins_after, get_expired, lt_entry,
}
use libanet.TimerQueue.Sets.{In, IsSorted, IsBelow, entry_eq}
use libanet.TimerQueue.Expiry.{
  expired_part-later_part, In-expired_part, In-later_part, In-parts, later_part-IsSorted,
  expired_part-IsSorted, is_expired-lt,
}
use libanet.TimerQueue.Invariant.{
  entry, IsScheduled, IsActive, Inv, IsIdle, AllIdle, IsApart, AreDistinct,
}
use libanet.TimerQueue.Insert.{same_length}
use libanet.TimerQueue.Cancel.{same_timer}
use libanet.TimerQueue.Expired.{Erased, erase_expired-Erased}
use libanet.TimerQueue.Moved.{IsApart-ne}

module _ (q : TimerQueue) (now : ℤ) (v : Inv q) where
  abbrev pub es : List Entry
  es = expired_part now q.timers

  abbrev pub later : List Entry
  later = later_part now q.timers

  expired_IsScheduled : (e : Entry) → In e es → IsScheduled q e
  expired_IsScheduled e m = v.scheduled e (In-expired_part now e q.timers m).0

  -- Two entries of a timer are one.
  one_entry : (e f : Entry) → IsScheduled q e → IsScheduled q f → e.timer ≡ f.timer → e ≡ f
  one_entry e f k l same =
      let t =
        same_timer k.timer l.timer (q.heap f.timer) (sym (ap q.heap same) ∙ k.stored) l.stored in
      entry_eq e f (sym k.time ∙ ap (λ x. x.expiration) t ∙ l.time) same

  all-IsApart :
      (e : Entry) (fs : List Entry)
      → IsScheduled q e
      → IsBelow e fs
      → ((f : Entry) → In f fs → IsScheduled q f)
      → IsApart e.timer fs
  all-IsApart e [] k b l = tt
  all-IsApart e (f ∷ fs) k b l = (
    (λ same. differ (one_entry f e (l f (inl refl)) k same)),
    all-IsApart e fs k b.1 (λ g m. l g (inr m)),
  )
    where
      differ : ¬ (f ≡ e)
      differ same = let x = subst (λ y. lt_entry e y ≡ true) same b.0 in ground (arith, x)

  distinct_of :
      (fs : List Entry) → IsSorted fs → ((f : Entry) → In f fs → IsScheduled q f) → AreDistinct fs
  distinct_of [] s k = tt
  distinct_of (f ∷ fs) s k = (
    all-IsApart f fs (k f (inl refl)) s.0 (λ g m. k g (inr m)),
    distinct_of fs s.1 (λ g m. k g (inr m)),
  )

  lengths : length es + length later ≡ q.active_timers.size
  lengths =
      sym (length-append es later) ∙ ap length (expired_part-later_part now q.timers) ∙ v.sizes

  pub expired-AreDistinct : AreDistinct es
  expired-AreDistinct =
      distinct_of es (expired_part-IsSorted now q.timers v.sorted) expired_IsScheduled

  pub erased :
      (b : ActiveTimerSet) × (erase_expired q.heap es q.active_timers ≡ some b)
      × Erased es q.active_timers b
  erased =
      erase_expired-Erased q.heap es q.active_timers
        (λ p s h. let k = v.active p s h in (k.timer, k.stored, k.same))
        (λ e m.
          let k = expired_IsScheduled e m in
          record { timer = k.timer; stored = k.stored; listed = k.listed })
        expired-AreDistinct (omega (arith, lengths))

  abbrev pub remaining : TimerQueue
  remaining = record q { timers = later; active_timers = erased.0 }

  later-IsApart :
      (e : Entry)
      → In e later
      → (fs : List Entry) → ((f : Entry) → In f fs → In f es)
      → IsApart e.timer fs
  later-IsApart e m [] part = tt
  later-IsApart e m (f ∷ fs) part =
      ((λ same. clash same), later-IsApart e m fs (λ g n. part g (inr n)))
    where
      clash : ¬ (f.timer ≡ e.timer)
      clash same =
          let l = In-later_part now e q.timers v.sorted m in
          let x = In-expired_part now f q.timers (part f (inl refl)) in
          let one = one_entry f e (v.scheduled f x.0) (v.scheduled e l.0) same in
          cc (subst (λ y. is_expired now y ≡ true) one x.1, l.1)

  begins : (fs : List Entry) → ((f : Entry) → In f fs → In f later) → begins_after now fs ≡ true
  begins [] part = refl
  begins (f ∷ fs) part =
      let l = In-later_part now f q.timers v.sorted (part f (inl refl)) in
      is_expired-lt now f (v.scheduled f l.0).address l.1

  sizes_then : length later ≡ erased.0.size
  sizes_then = omega (arith, lengths, erased.2.size)

  pub get_expired-remaining : get_expired q now ≡ some (remaining, es)
  unfolding get_expired
  get_expired-remaining =
      rw (same_length _ _ v.sizes, begins later (λ f m. m), erased.1, same_length _ _ sizes_then)
        refl

  later-IsScheduled : (e : Entry) → In e later → IsScheduled remaining e
  later-IsScheduled e m =
      let k = v.scheduled e (In-later_part now e q.timers v.sorted m).0 in
      record {
        timer = k.timer;
        stored = k.stored;
        time = k.time;
        listed = erased.2.kept e.timer k.timer.sequence (later-IsApart e m es (λ f n. n)) k.listed;
        address = k.address;
      }

  active_then : (p s : ℕ) → erased.0.has p s ≡ true → IsActive remaining p s
  active_then p s h =
      let (old, apart) = erased.2.subset p s h in
      let k = v.active p s old in
      record {
        timer = k.timer;
        stored = k.stored;
        same = k.same;
        listed = elim (In-parts now (entry k.timer.expiration p) q.timers k.listed) [
          | inl expired ↦ absurd (IsApart-ne p (entry k.timer.expiration p) es apart expired refl)
          | inr stays ↦ stays
        ];
      }

  pub remaining-Inv : Inv remaining
  remaining-Inv = record {
    sorted = later_part-IsSorted now q.timers v.sorted;
    sizes = sizes_then;
    scheduled = later-IsScheduled;
    active = active_then;
  }

  remaining-IsIdle : (e : Entry) → In e es → IsIdle remaining e.timer
  remaining-IsIdle e m =
      let k = expired_IsScheduled e m in
      record {
        timer = k.timer;
        stored = k.stored;
        address = k.address;
        absent = λ s. away s (Bool-cases (erased.0.has e.timer s));
      }
    where
      away :
          (s : ℕ)
          → (erased.0.has e.timer s ≡ true) ⊎ (erased.0.has e.timer s ≡ false)
          → erased.0.has e.timer s ≡ false
      away s (inl there) =
          absurd (IsApart-ne e.timer e es (erased.2.subset e.timer s there).1 m refl)
      away s (inr gone) = gone

  all_idle : (fs : List Entry) → ((f : Entry) → In f fs → In f es) → AllIdle remaining fs
  all_idle [] part = tt
  all_idle (f ∷ fs) part =
      (remaining-IsIdle f (part f (inl refl)), all_idle fs (λ g m. part g (inr m)))

  pub remaining-AllIdle : AllIdle remaining es
  remaining-AllIdle = all_idle es (λ f m. m)
