-- ===== src/StringPiece/Order.antt =====
-- The order of sequences of bytes, against which base/StringPiece.h is compared.
use libanet.Common.{
  ℕ, zero, suc, ◌≤◌, ◌<◌, ◌≡◌, ◌⊎◌, inl, inr, refl, sym, ap, ◌∙◌, Bool, true, false, List, [], ◌∷◌,
  length, ltb, ◌==◌, if◌then◌else◌, arith, Bool-cases, ltb→lt, lt→ltb,
}
use libanet.Common.Int.{ℤ, pos, negsuc}

pub data Comparison : Type 0 where
  less same greater : Comparison

-- By the first two bytes, or else by the rest.
abbrev pub by_byte : ℕ → ℕ → Comparison → Comparison
by_byte a b rest = if ltb a b then less else if ltb b a then greater else rest

-- The lexicographic order
unfoldable pub order : List ℕ → List ℕ → Comparison
order [] [] = same
order [] (y ∷ ys) = less
order (x ∷ xs) [] = greater
order (x ∷ xs) (y ∷ ys) = by_byte x y (order xs ys)

-- The order of the first n bytes
unfoldable pub bytes_order : ℕ → List ℕ → List ℕ → Comparison
bytes_order zero xs ys = same
bytes_order (suc n) [] ys = same
bytes_order (suc n) (x ∷ xs) [] = same
bytes_order (suc n) (x ∷ xs) (y ∷ ys) = by_byte x y (bytes_order n xs ys)

abbrev pub sign : ℤ → Comparison
sign (pos zero) = same
sign (pos (suc n)) = greater
sign (negsuc n) = less

abbrev pub is_less_order : Comparison → Bool
is_less_order less = true
is_less_order same = false
is_less_order greater = false

abbrev pub is_same_order : Comparison → Bool
is_same_order less = false
is_same_order same = true
is_same_order greater = false

abbrev pub is_greater_order : Comparison → Bool
is_greater_order less = false
is_greater_order same = false
is_greater_order greater = true

abbrev pub by_length : ℕ → ℕ → Comparison
by_length m n = by_byte m n same

abbrev pub then_by : Comparison → Comparison → Comparison
then_by less o = less
then_by same o = o
then_by greater o = greater

pub by_byte-less : (a b : ℕ) (rest : Comparison) → a < b → by_byte a b rest ≡ less
by_byte-less a b rest h = rw (lt→ltb a b h) refl

pub not_ltb : (a b : ℕ) → b ≤ a → ltb a b ≡ false
not_ltb a b h = ground arith

pub by_byte-greater : (a b : ℕ) (rest : Comparison) → b < a → by_byte a b rest ≡ greater
by_byte-greater a b rest h = rw (not_ltb a b (omega (arith, h)), lt→ltb b a h) refl

pub by_byte-same : (a b : ℕ) (rest : Comparison) → a ≡ b → by_byte a b rest ≡ rest
by_byte-same a b rest h = rw (not_ltb a b (omega (arith, h)), not_ltb b a (omega (arith, h))) refl

pub smaller_or_not : (a b : ℕ) → (a < b) ⊎ ((b < a) ⊎ (a ≡ b))
smaller_or_not a b = elim (Bool-cases (ltb a b)) [
  | inl h ↦ inl (ltb→lt a b h)
  | inr h ↦ elim (Bool-cases (ltb b a)) [
    | inl k ↦ inr (inl (ltb→lt b a k))
    | inr k ↦ inr (inr (ground arith))
  ]
]

pub not_zero : (n : ℕ) → (suc n == 0) ≡ false
not_zero n = ground arith

by_length-suc : (m n : ℕ) → by_length (suc m) (suc n) ≡ by_length m n
by_length-suc m n = elim (smaller_or_not m n) [
  | inl h ↦ by_byte-less (suc m) (suc n) same (omega (arith, h)) ∙ sym (by_byte-less m n same h)
  | inr (inl h) ↦
      by_byte-greater (suc m) (suc n) same (omega (arith, h)) ∙ sym (by_byte-greater m n same h)
  | inr (inr h) ↦ by_byte-same (suc m) (suc n) same (ap suc h) ∙ sym (by_byte-same m n same h)
]

-- The order of two sequences is that of their bytes up to the end of the shorter, and then that of
-- their lengths.
pub order-bytes_order :
    (n : ℕ) (xs ys : List ℕ)
    → ((n ≡ length xs) × (n ≤ length ys)) ⊎ ((n ≡ length ys) × (n ≤ length xs))
    → order xs ys ≡ then_by (bytes_order n xs ys) (by_length (length xs) (length ys))
unfolding order bytes_order
order-bytes_order zero [] [] h = refl
order-bytes_order zero [] (y ∷ ys) h = sym (by_byte-less 0 (suc (length ys)) same (omega arith))
order-bytes_order zero (x ∷ xs) [] h = sym (by_byte-greater (suc (length xs)) 0 same (omega arith))
order-bytes_order zero (x ∷ xs) (y ∷ ys) h = absurd (omega (arith, h))
order-bytes_order (suc n) [] ys h = absurd (omega (arith, h))
order-bytes_order (suc n) (x ∷ xs) [] h = absurd (omega (arith, h))
order-bytes_order (suc n) (x ∷ xs) (y ∷ ys) h = elim (smaller_or_not x y) [
  | inl l ↦
      by_byte-less x y _ l
      ∙ ap (λ o. then_by o (by_length (suc (length xs)) (suc (length ys))))
          (sym (by_byte-less x y _ l))
  | inr (inl g) ↦
      by_byte-greater x y _ g
      ∙ ap (λ o. then_by o (by_length (suc (length xs)) (suc (length ys))))
          (sym (by_byte-greater x y _ g))
  | inr (inr e) ↦
      by_byte-same x y _ e
      ∙ order-bytes_order n xs ys (omega (arith, h))
      ∙ ap (then_by (bytes_order n xs ys)) (sym (by_length-suc (length xs) (length ys)))
      ∙ ap (λ o. then_by o (by_length (suc (length xs)) (suc (length ys))))
          (sym (by_byte-same x y _ e))
]
