-- ===== src/TimerQueue/Expired.antt =====
-- The loop of `getExpired` in net/TimerQueue.cc: timers leave the set of active timers.
use libanet.Common.{
  ℕ, ◌+◌, ◌-◌, ◌≤◌, ◌≡◌, inl, inr, refl, sym, ap, ◌∙◌, Bool, true, false, not, ◌&&◌, Option, some,
  List, [], ◌∷◌, length, arith,
}
use libanet.TimerQueue.{Timer, Entry, ActiveTimerSet, is_key, erase_expired}
use libanet.TimerQueue.Sets.{In}
use libanet.TimerQueue.Invariant.{IsApart, AreDistinct, is_key-ne}
use libanet.TimerQueue.Cancel.{same_timer}
use libanet.TimerQueue.Moved.{IsApart-ne}

-- `b` is `a` without the timers of the entries.
pub record Erased (es : List Entry) (a b : ActiveTimerSet) : Type 0 where
  pub size : b.size + length es ≡ a.size
  pub subset : (p s : ℕ) → b.has p s ≡ true → (a.has p s ≡ true) × IsApart p es
  pub kept : (p s : ℕ) → IsApart p es → a.has p s ≡ true → b.has p s ≡ true

pub record IsListed (heap : ℕ → Option Timer) (a : ActiveTimerSet) (e : Entry) : Type 0 where
  pub timer : Timer
  pub stored : heap e.timer ≡ some timer
  pub listed : a.has e.timer timer.sequence ≡ true

-- A timer is known by its sequence number.
abbrev pub IsKnown : (ℕ → Option Timer) → ActiveTimerSet → Type 0
IsKnown heap a = (p s : ℕ) → a.has p s ≡ true → (t : Timer) × (heap p ≡ some t) × (t.sequence ≡ s)

abbrev without : ActiveTimerSet → ℕ → ℕ → ActiveTimerSet
without a p s = record { has = λ p' s'. not (is_key p s p' s') && a.has p' s'; size = a.size - 1 }

both : (b c : Bool) → (not b && c) ≡ true → (b ≡ false) × (c ≡ true)
both b c h = ground arith

still : (b c : Bool) → b ≡ false → c ≡ true → (not b && c) ≡ true
still b c h k = ground arith

not_same :
    (heap : ℕ → Option Timer) (a : ActiveTimerSet) (e : Entry) (p s : ℕ) (x : IsListed heap a e)
    → is_key e.timer x.timer.sequence p s ≡ false
    → e.timer ≡ p
    → (t : Timer) × (heap p ≡ some t) × (t.sequence ≡ s)
    → ⊥
not_same heap a e p s x key same (t, stored, seq) =
    let same_t = same_timer x.timer t (heap p) (sym (ap heap same) ∙ x.stored) stored in
    let same_s : x.timer.sequence ≡ s = ap (λ y. y.sequence) same_t ∙ seq in
    ground (arith, key, same, same_s)

pub erase_expired-Erased :
    (heap : ℕ → Option Timer) (es : List Entry) (a : ActiveTimerSet)
    → IsKnown heap a
    → ((e : Entry) → In e es → IsListed heap a e)
    → AreDistinct es
    → length es ≤ a.size
    → (b : ActiveTimerSet) × (erase_expired heap es a ≡ some b) × Erased es a b
unfolding erase_expired
erase_expired-Erased heap [] a u k d n =
    (a, refl, record { size = omega arith; subset = λ p s h. (h, tt); kept = λ p s i h. h })
erase_expired-Erased heap (e ∷ es) a u k d n =
    let x = k e (inl refl) in
    let p = e.timer in
    let s = x.timer.sequence in
    let c = without a p s in
    let known : IsKnown heap c = λ p' s' h. u p' s' (both (is_key p s p' s') (a.has p' s') h).1 in
    let listed : (f : Entry) → In f es → IsListed heap c f = λ f m.
      let y = k f (inr m) in
      record {
        timer = y.timer;
        stored = y.stored;
        listed =
            still (is_key p s f.timer y.timer.sequence) _
              (is_key-ne p s f.timer y.timer.sequence (IsApart-ne p f es d.0 m)) y.listed;
      } in
    let rest = erase_expired-Erased heap es c known listed d.1 (omega arith) in
    (
      rest.0,
      rw (x.stored, x.listed) rest.1,
      record {
        size = omega (arith, rest.2.size);
        subset = λ p' s' h.
            let (in_c, apart) = rest.2.subset p' s' h in
            let (key, in_a) = both (is_key p s p' s') (a.has p' s') in_c in
            (in_a, ((λ same. not_same heap a e p' s' x key same (u p' s' in_a)), apart));
        kept = λ p' s' i h.
            rest.2.kept p' s' i.1
              (still (is_key p s p' s') _ (is_key-ne p s p' s' (λ same. i.0 (sym same))) h);
      },
    )
