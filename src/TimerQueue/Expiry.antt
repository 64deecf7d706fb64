-- ===== src/TimerQueue/Expiry.antt =====
-- The lower bound in `getExpired` of net/TimerQueue.cc.
use libanet.Common.{
  ◌<◌, ◌≡◌, ◌⊎◌, inl, inr, refl, sym, ap, subst, true, false, List, [], ◌∷◌, ◌++◌, arith,
  Bool-cases,
}
use libanet.Common.Int.{ℤ, ◌≤ℤ◌, ltb_ℤ}
use libanet.TimerQueue.{Entry, lt_entry, is_expired, expired_part, later_part, uintptr_max}
use libanet.TimerQueue.Sets.{In, IsBelow, IsSorted, In-IsBelow}

pub expired_part-later_part :
    (now : ℤ) (xs : List Entry) → expired_part now xs ++ later_part now xs ≡ xs
unfolding expired_part later_part
expired_part-later_part now [] = refl
expired_part-later_part now (x ∷ xs) = elim (Bool-cases (is_expired now x)) [
  | inl h ↦ rw h (ap (◌∷◌ x) (expired_part-later_part now xs))
  | inr h ↦ rw h refl
]

pub In-expired_part :
    (now : ℤ) (e : Entry) (xs : List Entry)
    → In e (expired_part now xs)
    → In e xs × (is_expired now e ≡ true)
unfolding expired_part
In-expired_part now e [] m = absurd m
In-expired_part now e (x ∷ xs) m = elim (Bool-cases (is_expired now x)) [
  | inl h ↦ elim (let n : In e (x ∷ expired_part now xs) = rw h at m in n) [
    | inl k ↦ (inl k, subst (λ y. is_expired now y ≡ true) (sym k) h)
    | inr n ↦ let r = In-expired_part now e xs n in (inr r.0, r.1)
  ]
  | inr h ↦ absurd (let n : In e [] = rw h at m in n)
]

before_expired :
    (now : ℤ) (x e : Entry)
    → is_expired now x ≡ false
    → lt_entry x e ≡ true
    → is_expired now e ≡ false
before_expired now x e h k = ground arith

pub In-later_part :
    (now : ℤ) (e : Entry) (xs : List Entry)
    → IsSorted xs
    → In e (later_part now xs)
    → In e xs × (is_expired now e ≡ false)
unfolding later_part
In-later_part now e [] s m = absurd m
In-later_part now e (x ∷ xs) s m = elim (Bool-cases (is_expired now x)) [
  | inl h ↦
      let n : In e (later_part now xs) = rw h at m in
      let r = In-later_part now e xs s.1 n in (inr r.0, r.1)
  | inr h ↦ elim (let n : In e (x ∷ xs) = rw h at m in n) [
    | inl k ↦ (inl k, subst (λ y. is_expired now y ≡ false) (sym k) h)
    | inr n ↦ (inr n, before_expired now x e h (In-IsBelow x e xs s.0 n))
  ]
]

pub In-parts :
    (now : ℤ) (e : Entry) (xs : List Entry)
    → In e xs
    → In e (expired_part now xs) ⊎ In e (later_part now xs)
unfolding expired_part later_part
In-parts now e [] m = absurd m
In-parts now e (x ∷ xs) m = elim (Bool-cases (is_expired now x)) [
  | inl h ↦ rw h (elim m as (λ k. (In e (x ∷ expired_part now xs)) ⊎ In e (later_part now xs)) [
    | inl k ↦ inl (inl k)
    | inr n ↦ elim (In-parts now e xs n) [ inl a ↦ inl (inr a) | inr b ↦ inr b ]
  ])
  | inr h ↦ rw h (inr m)
]

pub later_part-IsSorted : (now : ℤ) (xs : List Entry) → IsSorted xs → IsSorted (later_part now xs)
unfolding later_part
later_part-IsSorted now [] s = tt
later_part-IsSorted now (x ∷ xs) s = elim (Bool-cases (is_expired now x)) [
  | inl h ↦ rw h (later_part-IsSorted now xs s.1)
  | inr h ↦ rw h s
]

-- With an address below the highest, an entry is expired when its time has come.
pub is_expired-le : (now : ℤ) (e : Entry) → is_expired now e ≡ true → e.when ≤ℤ now
is_expired-le now e h = ground arith

pub is_expired-lt :
    (now : ℤ) (e : Entry)
    → e.timer < uintptr_max
    → is_expired now e ≡ false
    → ltb_ℤ now e.when ≡ true
is_expired-lt now e k h = ground arith

-- Different entries of the set before the sentry.
below : (now : ℤ) (a : Entry) (xs : List Entry) → IsBelow a xs → IsBelow a (expired_part now xs)
unfolding expired_part
below now a [] b = tt
below now a (x ∷ xs) b = elim (Bool-cases (is_expired now x)) [
  | inl h ↦ rw h (b.0, below now a xs b.1)
  | inr h ↦ rw h tt
]

pub expired_part-IsSorted :
    (now : ℤ) (xs : List Entry) → IsSorted xs → IsSorted (expired_part now xs)
unfolding expired_part
expired_part-IsSorted now [] s = tt
expired_part-IsSorted now (x ∷ xs) s = elim (Bool-cases (is_expired now x)) [
  | inl h ↦ rw h (below now x xs s.0, expired_part-IsSorted now xs s.1)
  | inr h ↦ rw h tt
]
