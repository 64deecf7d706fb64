-- ===== src/StringPiece/Tests.antt =====
-- A memcmp, and the theorem on two pieces.
use libanet.Common.{ℕ, ◌≤◌, ◌≡◌, refl, true, not, List, [], ◌∷◌, length}
use libanet.Common.Int.{ℤ, pos, negsuc}
use libanet.StringPiece.{is_equal, is_less, is_at_most, is_at_least, is_greater, compare}
use libanet.StringPiece.Order.{
  Comparison, less, same, greater, order, bytes_order, sign, is_less_order, is_same_order,
  is_greater_order,
}
use libanet.StringPiece.Operators.{comparisons-agree}

abbrev with_sign : Comparison → ℤ
with_sign less = negsuc 6
with_sign same = pos 0
with_sign greater = pos 3

abbrev memcmp : List ℕ → List ℕ → ℕ → ℤ
memcmp xs ys n = with_sign (bytes_order n xs ys)

signs :
    (xs ys : List ℕ) (n : ℕ)
    → n ≤ length xs
    → n ≤ length ys
    → sign (memcmp xs ys n) ≡ bytes_order n xs ys
signs xs ys n h k = by_sign (bytes_order n xs ys)
  where
    by_sign : (o : Comparison) → sign (with_sign o) ≡ o
    by_sign less = refl
    by_sign same = refl
    by_sign greater = refl

abbrev ab : List ℕ
ab = b'a' ∷ b'b' ∷ []

abbrev abc : List ℕ
abc = b'a' ∷ b'b' ∷ b'c' ∷ []

comparisons-agree_example :
    (is_equal memcmp ab abc ≡ is_same_order (order ab abc))
    × (is_less memcmp ab abc ≡ is_less_order (order ab abc))
    × (is_at_most memcmp ab abc ≡ not (is_greater_order (order ab abc)))
    × (is_at_least memcmp ab abc ≡ not (is_less_order (order ab abc)))
    × (is_greater memcmp ab abc ≡ is_greater_order (order ab abc))
    × (sign (compare memcmp ab abc) ≡ order ab abc)
    × (is_equal memcmp ab abc ≡ true → ab ≡ abc)
comparisons-agree_example = comparisons-agree memcmp signs ab abc
