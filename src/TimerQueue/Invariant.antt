-- ===== src/TimerQueue/Invariant.antt =====
-- The invariant of net/TimerQueue.cc: both sets hold the same timers.
use libanet.Common.{
  ℕ, ◌<◌, ◌≡◌, ◌≢◌, inl, inr, subst, Bool, true, false, ◌||◌, Option, none, some, List, [], ◌∷◌,
  length, arith, Bool-cases,
}
use libanet.Common.Int.{ℤ}
use libanet.TimerQueue.{Timer, Entry, TimerQueue, contains, is_key, store, uintptr_max}
use libanet.TimerQueue.Sets.{In, IsSorted, contains-In}

abbrev pub entry : ℤ → ℕ → Entry
entry when p = record { when = when; timer = p }

pub record IsScheduled (q : TimerQueue) (e : Entry) : Type 0 where
  pub timer : Timer
  pub stored : q.heap e.timer ≡ some timer
  pub time : timer.expiration ≡ e.when
  pub listed : q.active_timers.has e.timer timer.sequence ≡ true
  pub address : e.timer < uintptr_max

pub record IsActive (q : TimerQueue) (p s : ℕ) : Type 0 where
  pub timer : Timer
  pub stored : q.heap p ≡ some timer
  pub same : timer.sequence ≡ s
  pub listed : In (entry timer.expiration p) q.timers

-- Every entry is of an active timer, every active timer has its entry, and the timers stand in the
-- order of their times.
pub record Inv (q : TimerQueue) : Type 0 where
  pub sorted : IsSorted q.timers
  pub sizes : length q.timers ≡ q.active_timers.size
  pub scheduled : (e : Entry) → In e q.timers → IsScheduled q e
  pub active : (p s : ℕ) → q.active_timers.has p s ≡ true → IsActive q p s

-- A timer that stands in neither set.
pub record IsIdle (q : TimerQueue) (p : ℕ) : Type 0 where
  pub timer : Timer
  pub stored : q.heap p ≡ some timer
  pub address : p < uintptr_max
  pub absent : (s : ℕ) → q.active_timers.has p s ≡ false

-- The expired timers while their callbacks run: in neither set, and no two the same.
abbrev pub AllIdle : TimerQueue → List Entry → Type 0
AllIdle q [] = Unit {0}
AllIdle q (e ∷ es) = IsIdle q e.timer × AllIdle q es

abbrev pub IsApart : ℕ → List Entry → Type 0
IsApart p [] = Unit {0}
IsApart p (e ∷ es) = (e.timer ≢ p) × IsApart p es

abbrev pub AreDistinct : List Entry → Type 0
AreDistinct [] = Unit {0}
AreDistinct (e ∷ es) = IsApart e.timer es × AreDistinct es

pub is_key_self : (p s : ℕ) → is_key p s p s ≡ true
is_key_self p s = ground arith

pub is_key-eq : (p s p' s' : ℕ) → is_key p s p' s' ≡ true → (p' ≡ p) × (s' ≡ s)
is_key-eq p s p' s' h = ground arith

pub is_key-ne : (p s p' s' : ℕ) → p' ≢ p → is_key p s p' s' ≡ false
is_key-ne p s p' s' h = ground arith

pub store_self : (h : ℕ → Option Timer) (p : ℕ) (t : Option Timer) → store h p t p ≡ t
store_self h p t = ground arith

pub store_other :
    (h : ℕ → Option Timer) (p p' : ℕ) (t : Option Timer) → p' ≢ p → store h p t p' ≡ h p'
store_other h p p' t n = ground arith

pub or_listed : (a b : Bool) → b ≡ true → (a || b) ≡ true
or_listed a b h = ground arith

pub has-ne : (q : TimerQueue) (p s : ℕ) → Inv q → q.heap p ≡ none → q.active_timers.has p s ≡ false
has-ne q p s v h = elim (Bool-cases (q.active_timers.has p s)) [
  | inl yes_has ↦ let a = v.active p s yes_has in absurd (ground (arith, a.stored, h))
  | inr no_has ↦ no_has
]

-- No entry is of an idle timer.
pub idle-contains :
    (q : TimerQueue) (p : ℕ) (w : ℤ) → Inv q → IsIdle q p → contains (entry w p) q.timers ≡ false
idle-contains q p w v i = elim (Bool-cases (contains (entry w p) q.timers)) [
  | inl there ↦
      let k = v.scheduled (entry w p) (contains-In (entry w p) q.timers there) in
      absurd (ground (arith, k.listed, i.absent k.timer.sequence))
  | inr away ↦ away
]

pub idle-ne : (q : TimerQueue) (p p' s : ℕ) → IsIdle q p → q.active_timers.has p' s ≡ true → p' ≢ p
idle-ne q p p' s i h e =
    let here = subst (λ k. q.active_timers.has k s ≡ true) e h in ground (arith, here, i.absent s)
