-- ===== src/TimeZone/Transitions.antt =====
-- `findLocalTime` in base/TimeZone.cc, for a moment and for a local time.
use libanet.Common.{
  ℕ, zero, suc, ◌+◌, ◌-◌, ◌≡◌, refl, ap, ◌∙◌, Bool, true, false, Option, none, some, List, [], ◌∷◌,
  ◌++◌, length, length-append, get_elem?, arith, lt→ltb, ltb, ◌==◌, if◌then◌else◌,
}
use libanet.Common.Int.{ℤ, pos, ◌≤ℤ◌, ◌<ℤ◌, ltb_ℤ}
use libanet.Common.Options.{◌>>=◌}
use libanet.TimeZone.{
  Transition, LocalTime, Data, DateTime, upper_bound, is_before_all, local_time_at, find_local_time,
  find_local_time_of, from_local_time, from_utc_time,
}

-- The transitions are in the order of their UTC times, none of which is before `low`.
pub data SortedFrom : ℤ → List Transition → Type 0 where
  no_transition : {low : ℤ} → SortedFrom low []
  next_transition :
      {low : ℤ} {x : Transition} {xs : List Transition}
      → low ≤ℤ x.utc_time
      → SortedFrom x.utc_time xs
      → SortedFrom low (x ∷ xs)

-- The transitions are in the order of their UTC times, as std::upper_bound takes them.
pub data Sorted : List Transition → Type 0 where
  sorted_none : Sorted []
  sorted_from : {x : Transition} {xs : List Transition} → SortedFrom x.utc_time xs → Sorted (x ∷ xs)

-- The transitions are no later than `t`.
data Past (t : ℤ) : List Transition → Type 0 where
  no_past : Past t []
  past : {x : Transition} {xs : List Transition} → x.utc_time ≤ℤ t → Past t xs → Past t (x ∷ xs)

-- The transitions begin later than `t`.
pub data Future (t : ℤ) : List Transition → Type 0 where
  no_future : Future t []
  future : {x : Transition} {xs : List Transition} → t <ℤ x.utc_time → Future t (x ∷ xs)

SortedFrom-Past :
    (t low : ℤ) (before after : List Transition) (x : Transition)
    → SortedFrom low (before ++ (x ∷ after))
    → x.utc_time ≤ℤ t
    → (low ≤ℤ t) × Past t before
SortedFrom-Past t low [] after x (next_transition h k) le = (omega (arith, h), no_past)
SortedFrom-Past t low (y ∷ ys) after x (next_transition h k) le =
    let (first, rest) = SortedFrom-Past t y.utc_time ys after x k le in
    (omega (arith, h, first), past first rest)

-- Those before a transition that has passed have passed.
Sorted-Past :
    (t : ℤ) (before after : List Transition) (x : Transition)
    → Sorted (before ++ (x ∷ after))
    → x.utc_time ≤ℤ t
    → Past t before
Sorted-Past t [] after x s le = no_past
Sorted-Past t (y ∷ ys) after x (sorted_from k) le =
    let (first, rest) = SortedFrom-Past t y.utc_time ys after x k le in past first rest

not_less : (a b : ℤ) → b ≤ℤ a → ltb_ℤ a b ≡ false
not_less a b h = ground arith

less : (a b : ℤ) → a <ℤ b → ltb_ℤ a b ≡ true
less a b h = ground arith

upper_bound-Future : (t : ℤ) (after : List Transition) → Future t after → upper_bound t after ≡ 0
unfolding upper_bound
upper_bound-Future t [] no_future = refl
upper_bound-Future t (x ∷ xs) (future h) = rw (less t x.utc_time h) refl

upper_bound-append :
    (t : ℤ) (before after : List Transition) (x : Transition)
    → Past t before
    → x.utc_time ≤ℤ t
    → Future t after
    → upper_bound t (before ++ (x ∷ after)) ≡ suc (length before)
unfolding upper_bound
upper_bound-append t [] after x no_past h f =
    rw (not_less t x.utc_time h) (ap suc (upper_bound-Future t after f))
upper_bound-append t (y ∷ ys) after x (past k p) h f =
    rw (not_less t y.utc_time k) (ap suc (upper_bound-append t ys after x p h f))

not_before :
    (t : ℤ) (before after : List Transition) (x : Transition)
    → Past t before
    → x.utc_time ≤ℤ t
    → is_before_all (λ tr. tr.utc_time) t (before ++ (x ∷ after)) ≡ false
unfolding is_before_all
not_before t [] after x no_past h = not_less t x.utc_time h
not_before t (y ∷ ys) after x (past k p) h = not_less t y.utc_time k

get_elem?-middle :
    (before after : List Transition) (x : Transition)
    → get_elem? (before ++ (x ∷ after)) (length before) ≡ some x
get_elem?-middle [] after x = refl
get_elem?-middle (y ∷ ys) after x = get_elem?-middle ys after x

suc_not_zero : (m : ℕ) → (suc m == 0) ≡ false
suc_not_zero m = ground arith

-- Either branch reads the same transition.
same_index :
    (at : ℕ → Option LocalTime) (m j : ℕ)
    → (if ltb (suc m) (m + suc j) then at (suc m - 1) else at (m + suc j - 1)) ≡ at m
same_index at m zero = rw (at_end) (ap at (omega arith))
  where
    at_end : ltb (suc m) (m + 1) ≡ false
    at_end = ground arith
same_index at m (suc j) = rw (lt→ltb (suc m) (m + suc (suc j)) (omega arith)) (ap at (omega arith))

-- With transitions in the order of their UTC times, at a moment that a transition has passed and the
-- next, if there is one, has not, the local time is the one that the transition names.
pub find_local_time-current :
    (d : Data) (t : ℤ) (before after : List Transition) (x : Transition)
    → d.transitions ≡ before ++ (x ∷ after)
    → Sorted (before ++ (x ∷ after))
    → x.utc_time ≤ℤ t
    → Future t after
    → find_local_time d t ≡ get_elem? d.local_times x.local_time_idx
unfolding find_local_time local_time_at
find_local_time-current d t before after x e sorted h f =
    let p = Sorted-Past t before after x sorted h in
    rw
      (
        e,
        not_before t before after x p h,
        upper_bound-append t before after x p h f,
        length-append before (x ∷ after),
        suc_not_zero (length before),
      )
      (same_index at (length before) (length after) ∙ rw (get_elem?-middle before after x) refl)
  where
    at : ℕ → Option LocalTime
    at i = get_elem? (before ++ (x ∷ after)) i >>= λ tr. get_elem? d.local_times tr.local_time_idx

-- With transitions in the order of their UTC times, the first of them later than the beginning of
-- 1970, a local time has no answer if the seconds that `from_utc_time` counts for it are not before
-- the local time of the first transition: an assert fails.
pub from_local_time_later :
    (d : Data) (lt : DateTime) (n : ℤ) (post : Bool) (x : Transition) (xs : List Transition)
    → d.transitions ≡ x ∷ xs
    → Sorted (x ∷ xs)
    → pos 0 <ℤ x.utc_time
    → from_utc_time lt ≡ some n
    → x.local_time ≤ℤ n
    → from_local_time d lt post ≡ none
unfolding from_local_time find_local_time_of is_before_all
from_local_time_later d lt n post x xs e sorted h counted k =
    rw (counted, e, not_less n x.local_time k, upper_bound-Future (pos 0) (x ∷ xs) (future h)) refl
