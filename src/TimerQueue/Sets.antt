-- ===== src/TimerQueue/Sets.antt =====
-- The ordered set of net/TimerQueue.cc as a list.
use libanet.Common.{
  suc, ◌≡◌, ◌≢◌, ◌⊎◌, inl, inr, refl, sym, ap, ap₂, subst, ◌∙◌, true, false, ◌||◌, List, [], ◌∷◌,
  length, arith, Bool-cases,
}
use libanet.Common.Int.{ℤ, ltb_ℤ, eq_of_parts}
use libanet.TimerQueue.{Entry, lt_entry, eq_entry, contains, insert_entry, erase_entry}

pub entry_eq : (a b : Entry) → a.when ≡ b.when → a.timer ≡ b.timer → a ≡ b
entry_eq a b h k = ap₂ (λ w p. record { when = w; timer = p }) h k

same_time : (a b : ℤ) → ltb_ℤ a b ≡ false → ltb_ℤ b a ≡ false → a ≡ b
same_time a b h k = eq_of_parts a b (ground arith)

pub eq_entry→eq : (a b : Entry) → eq_entry a b ≡ true → a ≡ b
eq_entry→eq a b h =
    entry_eq a b (same_time a.when b.when (ground arith) (ground arith)) (ground arith)

pub eq_entry_refl : (a : Entry) → eq_entry a a ≡ true
eq_entry_refl a = ground arith

pub lt_entry_trans :
    (a b c : Entry) → lt_entry a b ≡ true → lt_entry b c ≡ true → lt_entry a c ≡ true
lt_entry_trans a b c h k = ground arith

pub lt_entry_flip :
    (a b : Entry) → lt_entry a b ≡ false → eq_entry a b ≡ false → lt_entry b a ≡ true
lt_entry_flip a b h k = ground arith

pub lt_entry-ne : (a b : Entry) → lt_entry a b ≡ true → eq_entry a b ≡ false
lt_entry-ne a b h = ground arith

abbrev pub In : Entry → List Entry → Type 0
In e [] = ⊥
In e (x ∷ xs) = (e ≡ x) ⊎ In e xs

-- What comes after an entry in the order.
abbrev pub IsBelow : Entry → List Entry → Type 0
IsBelow e [] = Unit {0}
IsBelow e (x ∷ xs) = (lt_entry e x ≡ true) × IsBelow e xs

abbrev pub IsSorted : List Entry → Type 0
IsSorted [] = Unit {0}
IsSorted (x ∷ xs) = IsBelow x xs × IsSorted xs

IsBelow-trans : (a b : Entry) (xs : List Entry) → lt_entry a b ≡ true → IsBelow b xs → IsBelow a xs
IsBelow-trans a b [] h k = tt
IsBelow-trans a b (x ∷ xs) h k = (lt_entry_trans a b x h k.0, IsBelow-trans a b xs h k.1)

pub In-IsBelow : (a e : Entry) (xs : List Entry) → IsBelow a xs → In e xs → lt_entry a e ≡ true
In-IsBelow a e [] h m = absurd m
In-IsBelow a e (x ∷ xs) h (inl same) = subst (λ y. lt_entry a y ≡ true) (sym same) h.0
In-IsBelow a e (x ∷ xs) h (inr m) = In-IsBelow a e xs h.1 m

pub contains-In : (e : Entry) (xs : List Entry) → contains e xs ≡ true → In e xs
unfolding contains
contains-In e [] h = cc
contains-In e (x ∷ xs) h = elim (Bool-cases (eq_entry e x)) [
  | inl same ↦ inl (eq_entry→eq e x same)
  | inr other ↦ inr (contains-In e xs (sym (ap (λ b. b || contains e xs) other) ∙ h))
]

pub In-contains : (e : Entry) (xs : List Entry) → In e xs → contains e xs ≡ true
unfolding contains
In-contains e [] m = absurd m
In-contains e (x ∷ xs) (inl same) =
    ap (λ b. b || contains e xs) (subst (λ y. eq_entry e y ≡ true) same (eq_entry_refl e))
In-contains e (x ∷ xs) (inr m) = elim (Bool-cases (eq_entry e x)) [
  | inl same ↦ rw same refl
  | inr other ↦ rw other (In-contains e xs m)
]

-- Insertion
pub insert_entry-In : (e x : Entry) (xs : List Entry) → In x (insert_entry e xs) → (x ≡ e) ⊎ In x xs
unfolding insert_entry
insert_entry-In e x [] m = m
insert_entry-In e x (y ∷ ys) m = elim (Bool-cases (lt_entry e y)) [
  | inl before ↦ rw before at m
  | inr after ↦ elim (let n : In x (y ∷ insert_entry e ys) = rw after at m in n) [
    | inl same ↦ inr (inl same)
    | inr n ↦ elim (insert_entry-In e x ys n) [ inl new ↦ inl new | inr old ↦ inr (inr old) ]
  ]
]

pub In-insert_entry_self : (e : Entry) (xs : List Entry) → In e (insert_entry e xs)
unfolding insert_entry
In-insert_entry_self e [] = inl refl
In-insert_entry_self e (y ∷ ys) = elim (Bool-cases (lt_entry e y)) [
  | inl before ↦ rw before (inl refl)
  | inr after ↦ rw after (inr (In-insert_entry_self e ys))
]

pub In-insert_entry : (e x : Entry) (xs : List Entry) → In x xs → In x (insert_entry e xs)
unfolding insert_entry
In-insert_entry e x [] m = absurd m
In-insert_entry e x (y ∷ ys) m = elim (Bool-cases (lt_entry e y)) [
  | inl before ↦ rw before (inr m)
  | inr after ↦ rw after (elim m as (λ k. In x (y ∷ insert_entry e ys)) [
    | inl same ↦ inl same
    | inr n ↦ inr (In-insert_entry e x ys n)
  ])
]

pub length-insert_entry :
    (e : Entry) (xs : List Entry) → length (insert_entry e xs) ≡ suc (length xs)
unfolding insert_entry
length-insert_entry e [] = omega arith
length-insert_entry e (y ∷ ys) = ground (arith, length-insert_entry e ys)

IsBelow-insert_entry :
    (a e : Entry) (xs : List Entry)
    → lt_entry a e ≡ true
    → IsBelow a xs
    → IsBelow a (insert_entry e xs)
unfolding insert_entry
IsBelow-insert_entry a e [] h k = (h, tt)
IsBelow-insert_entry a e (y ∷ ys) h k = elim (Bool-cases (lt_entry e y)) [
  | inl before ↦ rw before (h, k)
  | inr after ↦ rw after (k.0, IsBelow-insert_entry a e ys h k.1)
]

pub insert_entry-IsSorted :
    (e : Entry) (xs : List Entry)
    → contains e xs ≡ false
    → IsSorted xs
    → IsSorted (insert_entry e xs)
unfolding insert_entry contains
insert_entry-IsSorted e [] h s = (tt, tt)
insert_entry-IsSorted e (y ∷ ys) h s = elim (Bool-cases (lt_entry e y)) [
  | inl before ↦ rw before ((before, IsBelow-trans e y ys before s.0), s)
  | inr after ↦ rw after (
    IsBelow-insert_entry y e ys (lt_entry_flip e y after (ground arith)) s.0,
    insert_entry-IsSorted e ys (ground arith) s.1,
  )
]

-- Erasure
pub In-erase_entry : (e x : Entry) (xs : List Entry) → In x (erase_entry e xs) → In x xs
unfolding erase_entry
In-erase_entry e x [] m = m
In-erase_entry e x (y ∷ ys) m = elim (Bool-cases (eq_entry e y)) [
  | inl same ↦ inr (rw same at m)
  | inr other ↦ elim (let n : In x (y ∷ erase_entry e ys) = rw other at m in n) [
    | inl k ↦ inl k
    | inr n ↦ inr (In-erase_entry e x ys n)
  ]
]

pub erase_entry-In_ne : (e x : Entry) (xs : List Entry) → x ≢ e → In x xs → In x (erase_entry e xs)
unfolding erase_entry
erase_entry-In_ne e x [] h m = m
erase_entry-In_ne e x (y ∷ ys) h m = elim (Bool-cases (eq_entry e y)) [
  | inl same ↦
      rw same (elim m as (λ k. In x ys) [
        | inl k ↦ absurd (h (k ∙ sym (eq_entry→eq e y same)))
        | inr n ↦ n
      ])
  | inr other ↦ rw other (elim m as (λ k. In x (y ∷ erase_entry e ys)) [
    | inl k ↦ inl k
    | inr n ↦ inr (erase_entry-In_ne e x ys h n)
  ])
]

pub length-erase_entry :
    (e : Entry) (xs : List Entry) → In e xs → suc (length (erase_entry e xs)) ≡ length xs
unfolding erase_entry
length-erase_entry e [] m = absurd m
length-erase_entry e (y ∷ ys) m = elim (Bool-cases (eq_entry e y)) [
  | inl same ↦ rw same refl
  | inr other ↦ rw other (elim m as (λ k. suc (suc (length (erase_entry e ys))) ≡ suc (length ys)) [
    | inl k ↦ absurd (ground (arith, subst (λ z. eq_entry e z ≡ true) k (eq_entry_refl e)))
    | inr n ↦ ap suc (length-erase_entry e ys n)
  ])
]

IsBelow-erase_entry : (a e : Entry) (xs : List Entry) → IsBelow a xs → IsBelow a (erase_entry e xs)
unfolding erase_entry
IsBelow-erase_entry a e [] k = tt
IsBelow-erase_entry a e (y ∷ ys) k = elim (Bool-cases (eq_entry e y)) [
  | inl same ↦ rw same k.1
  | inr other ↦ rw other (k.0, IsBelow-erase_entry a e ys k.1)
]

pub erase_entry-IsSorted : (e : Entry) (xs : List Entry) → IsSorted xs → IsSorted (erase_entry e xs)
unfolding erase_entry
erase_entry-IsSorted e [] s = tt
erase_entry-IsSorted e (y ∷ ys) s = elim (Bool-cases (eq_entry e y)) [
  | inl same ↦ rw same s.1
  | inr other ↦ rw other (IsBelow-erase_entry y e ys s.0, erase_entry-IsSorted e ys s.1)
]

pub In-ne_of_below : (y e : Entry) (ys : List Entry) → IsBelow y ys → In e ys → eq_entry e y ≡ false
In-ne_of_below y e ys b m = flipped (In-IsBelow y e ys b m)
  where
    flipped : lt_entry y e ≡ true → eq_entry e y ≡ false
    flipped h = ground arith

-- An erased entry is gone.
pub erase_entry-not_In : (e : Entry) (xs : List Entry) → IsSorted xs → ¬ In e (erase_entry e xs)
unfolding erase_entry
erase_entry-not_In e [] s m = m
erase_entry-not_In e (y ∷ ys) s m = elim (Bool-cases (eq_entry e y)) [
  | inl same ↦ let n : In e ys = rw same at m in cc (In-ne_of_below y e ys s.0 n, same)
  | inr other ↦ elim (let n : In e (y ∷ erase_entry e ys) = rw other at m in n) [
    | inl k ↦ absurd (ground (arith, subst (λ z. eq_entry e z ≡ true) k (eq_entry_refl e)))
    | inr n ↦ erase_entry-not_In e ys s.1 n
  ]
]
