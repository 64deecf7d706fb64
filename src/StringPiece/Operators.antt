-- ===== src/StringPiece/Operators.antt =====
-- The comparisons of base/StringPiece.h against the order of sequences of bytes.
use libanet.Common.{
  ℕ, zero, suc, ◌≤◌, ◌<◌, ◌≡◌, ◌⊎◌, inl, inr, refl, sym, ap, ap₂, ◌∙◌, true, false, not, ◌&&◌, ◌||◌,
  List, [], ◌∷◌, length, ltb, leb, ◌==◌, if◌then◌else◌, arith, Bool-cases, ltb→lt, lt→ltb,
}
use mathlib.Core.Bool.{false≢true}
use libanet.Common.Int.{ℤ, pos, negsuc, ◌+ℤ◌}
use libanet.StringPiece.{
  is_zero, is_negative, is_positive, shorter, is_equal, is_less, is_at_most, is_at_least,
  is_greater, compare,
}
use libanet.StringPiece.Order.{
  Comparison, less, same, greater, order, bytes_order, sign, is_less_order, is_same_order,
  is_greater_order, by_length, then_by, by_byte-less, by_byte-greater, by_byte-same, not_ltb,
  smaller_or_not, not_zero, order-bytes_order,
}

less_by_sign :
    (r : ℤ) (m n : ℕ)
    → (is_negative r || (is_zero r && ltb m n)) ≡ is_less_order (then_by (sign r) (by_length m n))
less_by_sign (negsuc k) m n = refl
less_by_sign (pos (suc k)) m n = rw (not_zero k) refl
less_by_sign (pos zero) m n = at_length m n
  where
    at_length : (m n : ℕ) → ltb m n ≡ is_less_order (by_length m n)
    at_length m n = elim (smaller_or_not m n) [
      | inl l ↦ rw (by_byte-less m n same l) (ground arith)
      | inr (inl g) ↦ rw (by_byte-greater m n same g) (ground arith)
      | inr (inr e) ↦ rw (by_byte-same m n same e) (ground arith)
    ]

at_most_by_sign :
    (r : ℤ) (m n : ℕ)
    → (is_negative r || (is_zero r && leb m n))
      ≡ not (is_greater_order (then_by (sign r) (by_length m n)))
at_most_by_sign (negsuc k) m n = refl
at_most_by_sign (pos (suc k)) m n = rw (not_zero k) refl
at_most_by_sign (pos zero) m n = at_length m n
  where
    at_length : (m n : ℕ) → leb m n ≡ not (is_greater_order (by_length m n))
    at_length m n = elim (smaller_or_not m n) [
      | inl l ↦ rw (by_byte-less m n same l) (ground arith)
      | inr (inl g) ↦ rw (by_byte-greater m n same g) (ground arith)
      | inr (inr e) ↦ rw (by_byte-same m n same e) (ground arith)
    ]

at_least_by_sign :
    (r : ℤ) (m n : ℕ)
    → (is_positive r || (is_zero r && leb n m))
      ≡ not (is_less_order (then_by (sign r) (by_length m n)))
at_least_by_sign (negsuc k) m n = refl
at_least_by_sign (pos (suc k)) m n = rw (not_zero k, lt→ltb 0 (suc k) (omega arith)) refl
at_least_by_sign (pos zero) m n = at_length m n
  where
    at_length : (m n : ℕ) → leb n m ≡ not (is_less_order (by_length m n))
    at_length m n = elim (smaller_or_not m n) [
      | inl l ↦ rw (by_byte-less m n same l) (ground arith)
      | inr (inl g) ↦ rw (by_byte-greater m n same g) (ground arith)
      | inr (inr e) ↦ rw (by_byte-same m n same e) (ground arith)
    ]

greater_by_sign :
    (r : ℤ) (m n : ℕ)
    → (is_positive r || (is_zero r && ltb n m))
      ≡ is_greater_order (then_by (sign r) (by_length m n))
greater_by_sign (negsuc k) m n = refl
greater_by_sign (pos (suc k)) m n = rw (not_zero k, lt→ltb 0 (suc k) (omega arith)) refl
greater_by_sign (pos zero) m n = at_length m n
  where
    at_length : (m n : ℕ) → ltb n m ≡ is_greater_order (by_length m n)
    at_length m n = elim (smaller_or_not m n) [
      | inl l ↦ rw (by_byte-less m n same l) (ground arith)
      | inr (inl g) ↦ rw (by_byte-greater m n same g) (ground arith)
      | inr (inr e) ↦ rw (by_byte-same m n same e) (ground arith)
    ]

is_equal_order : (r : ℤ) → is_zero r ≡ is_same_order (then_by (sign r) same)
is_equal_order (negsuc k) = refl
is_equal_order (pos (suc k)) = not_zero k
is_equal_order (pos zero) = refl

not_same :
    (o : Comparison) (m n : ℕ)
    → (m < n) ⊎ (n < m)
    → is_same_order (then_by o (by_length m n)) ≡ false
not_same less m n h = refl
not_same greater m n h = refl
not_same same m n (inl l) = ap is_same_order (by_byte-less m n same l)
not_same same m n (inr g) = ap is_same_order (by_byte-greater m n same g)

-- Only a sequence itself is the same as it.
order-same : (xs ys : List ℕ) → is_same_order (order xs ys) ≡ true → xs ≡ ys
unfolding order
order-same [] [] h = refl
order-same [] (y ∷ ys) h = absurd (false≢true h)
order-same (x ∷ xs) [] h = absurd (false≢true h)
order-same (x ∷ xs) (y ∷ ys) h = elim (smaller_or_not x y) [
  | inl l ↦ absurd (false≢true (sym (ap is_same_order (by_byte-less x y _ l)) ∙ h))
  | inr (inl g) ↦ absurd (false≢true (sym (ap is_same_order (by_byte-greater x y _ g)) ∙ h))
  | inr (inr e) ↦
      ap₂ (λ z zs. z ∷ zs) e (order-same xs ys (sym (ap is_same_order (by_byte-same x y _ e)) ∙ h))
]

-- The sign of what memcmp returns, as it is documented
module _ (memcmp : List ℕ → List ℕ → ℕ → ℤ)
    (signs : (xs ys : List ℕ) (n : ℕ)
      → n ≤ length xs
      → n ≤ length ys
      → sign (memcmp xs ys n) ≡ bytes_order n xs ys) where
  n_shorter :
      (xs ys : List ℕ)
      → ((shorter xs ys ≡ length xs) × (shorter xs ys ≤ length ys))
        ⊎ ((shorter xs ys ≡ length ys) × (shorter xs ys ≤ length xs))
  n_shorter xs ys = elim (Bool-cases (ltb (length xs) (length ys))) [
    | inl h ↦ inl (rw h (refl, omega (arith, ltb→lt (length xs) (length ys) h)))
    | inr h ↦ inr (rw h (refl, ground arith))
  ]

  order-sign :
      (xs ys : List ℕ)
      → order xs ys
        ≡ then_by (sign (memcmp xs ys (shorter xs ys))) (by_length (length xs) (length ys))
  order-sign xs ys =
      let s = n_shorter xs ys in
      order-bytes_order (shorter xs ys) xs ys s
      ∙ ap (λ o. then_by o (by_length (length xs) (length ys)))
          (sym (signs xs ys (shorter xs ys) (omega (arith, s)) (omega (arith, s))))

  compare-order : (xs ys : List ℕ) → sign (compare memcmp xs ys) ≡ order xs ys
  unfolding compare ◌+ℤ◌
  compare-order xs ys = by_sign (memcmp xs ys (shorter xs ys)) ∙ sym (order-sign xs ys)
    where
      by_sign :
          (r : ℤ)
          → sign (
              if is_zero r
              then if ltb (length xs) (length ys)
                then negsuc 0
                else if ltb (length ys) (length xs)
                then r +ℤ pos 1
                else r
              else r)
            ≡ then_by (sign r) (by_length (length xs) (length ys))
      by_sign (negsuc n) = refl
      by_sign (pos (suc n)) = rw (not_zero n) refl
      by_sign (pos zero) = elim (smaller_or_not (length xs) (length ys)) [
        | inl l ↦ rw (lt→ltb (length xs) (length ys) l) refl
        | inr (inl g) ↦
            rw
              (not_ltb (length xs) (length ys) (omega (arith, g)), lt→ltb (length ys) (length xs) g)
              refl
        | inr (inr e) ↦
            rw
              (
                not_ltb (length xs) (length ys) (omega (arith, e)),
                not_ltb (length ys) (length xs) (omega (arith, e)),
              )
              refl
      ]

  is_equal-order : (xs ys : List ℕ) → is_equal memcmp xs ys ≡ is_same_order (order xs ys)
  unfolding is_equal
  is_equal-order xs ys = elim (smaller_or_not (length xs) (length ys)) [
    | inl l ↦ rw (differ (length xs) (length ys) (inl l)) (
        sym (
          ap is_same_order (order-sign xs ys)
          ∙ not_same (sign (memcmp xs ys (shorter xs ys))) _ _ (inl l)))
    | inr (inl g) ↦ rw (differ (length xs) (length ys) (inr g)) (
        sym (
          ap is_same_order (order-sign xs ys)
          ∙ not_same (sign (memcmp xs ys (shorter xs ys))) _ _ (inr g)))
    | inr (inr e) ↦ rw (agree (length xs) (length ys) e) (
        is_equal_order (memcmp xs ys (length xs))
        ∙ ap is_same_order (
            ap (λ n. then_by (sign (memcmp xs ys n)) same) (sym (at_end e))
            ∙ ap (then_by (sign (memcmp xs ys (shorter xs ys))))
                (sym (by_byte-same (length xs) (length ys) same e))
            ∙ sym (order-sign xs ys)))
  ]
    where
      differ : (m n : ℕ) → (m < n) ⊎ (n < m) → (m == n) ≡ false
      differ m n h = ground arith

      agree : (m n : ℕ) → m ≡ n → (m == n) ≡ true
      agree m n h = ground arith

      at_end : length xs ≡ length ys → shorter xs ys ≡ length xs
      at_end e = rw (not_ltb (length xs) (length ys) (omega (arith, e))) (sym e)

-- If the sign of what memcmp returns is the order of the bytes, then the operators ==, <, <=, >= and >
-- of two pieces and the sign of compare are those of the lexicographic order of their bytes, and pieces
-- that are == have the same bytes.
pub comparisons-agree :
    (memcmp : List ℕ → List ℕ → ℕ → ℤ)
    → ((xs ys : List ℕ) (n : ℕ)
        → n ≤ length xs
        → n ≤ length ys
        → sign (memcmp xs ys n) ≡ bytes_order n xs ys)
    → (p x : List ℕ)
    → (is_equal memcmp p x ≡ is_same_order (order p x))
      × (is_less memcmp p x ≡ is_less_order (order p x))
      × (is_at_most memcmp p x ≡ not (is_greater_order (order p x)))
      × (is_at_least memcmp p x ≡ not (is_less_order (order p x)))
      × (is_greater memcmp p x ≡ is_greater_order (order p x))
      × (sign (compare memcmp p x) ≡ order p x)
      × (is_equal memcmp p x ≡ true → p ≡ x)
unfolding is_less is_at_most is_at_least is_greater
comparisons-agree memcmp signs p x =
    let r = memcmp p x (shorter p x) in
    let o = sym (order-sign memcmp signs p x) in
    (
      is_equal-order memcmp signs p x,
      less_by_sign r (length p) (length x) ∙ ap is_less_order o,
      at_most_by_sign r (length p) (length x) ∙ ap (λ c. not (is_greater_order c)) o,
      at_least_by_sign r (length p) (length x) ∙ ap (λ c. not (is_less_order c)) o,
      greater_by_sign r (length p) (length x) ∙ ap is_greater_order o,
      compare-order memcmp signs p x,
      λ h. order-same p x (sym (is_equal-order memcmp signs p x) ∙ h),
    )
