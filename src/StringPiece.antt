-- ===== src/StringPiece.antt =====
-- base/StringPiece.h: the comparisons of StringPiece, which is the bytes that it shows. memcmp is a
-- parameter.
mod Order
mod Operators
mod Tests
use libanet.Common.{
  ℕ, zero, suc, ◌+◌, Bool, true, false, not, ◌&&◌, ◌||◌, List, [], ◌∷◌, length, drop, take, ltb,
  leb, ◌==◌, if◌then◌else◌, ◌-◌,
}
use libanet.Common.Int.{ℤ, pos, negsuc, ◌+ℤ◌}

abbrev pub is_zero : ℤ → Bool
is_zero (pos n) = n == 0
is_zero (negsuc n) = false

abbrev pub is_negative : ℤ → Bool
is_negative (pos n) = false
is_negative (negsuc n) = true

abbrev pub is_positive : ℤ → Bool
is_positive (pos n) = ltb 0 n
is_positive (negsuc n) = false

-- length_ < x.length_ ? length_ : x.length_
abbrev pub shorter : List ℕ → List ℕ → ℕ
shorter p x = if ltb (length p) (length x) then length p else length x

abbrev pub remove_prefix : List ℕ → ℕ → List ℕ
remove_prefix p n = drop n p

abbrev pub remove_suffix : List ℕ → ℕ → List ℕ
remove_suffix p n = take (length p - n) p

module _ (memcmp : List ℕ → List ℕ → ℕ → ℤ) where
  unfoldable pub is_equal : List ℕ → List ℕ → Bool
  is_equal p x = length p == length x && is_zero (memcmp p x (length p))

  -- STRINGPIECE_BINARY_PREDICATE, for each of the four operators
  unfoldable pub is_less : List ℕ → List ℕ → Bool
  is_less p x =
      let r = memcmp p x (shorter p x) in is_negative r || (is_zero r && ltb (length p) (length x))

  unfoldable pub is_at_most : List ℕ → List ℕ → Bool
  is_at_most p x =
      let r = memcmp p x (shorter p x) in is_negative r || (is_zero r && leb (length p) (length x))

  unfoldable pub is_at_least : List ℕ → List ℕ → Bool
  is_at_least p x =
      let r = memcmp p x (shorter p x) in is_positive r || (is_zero r && leb (length x) (length p))

  unfoldable pub is_greater : List ℕ → List ℕ → Bool
  is_greater p x =
      let r = memcmp p x (shorter p x) in is_positive r || (is_zero r && ltb (length x) (length p))

  unfoldable pub compare : List ℕ → List ℕ → ℤ
  unfolding ◌+ℤ◌
  compare p x =
      let r = memcmp p x (shorter p x) in
      if is_zero r
      then if ltb (length p) (length x)
        then negsuc 0
        else if ltb (length x) (length p)
        then r +ℤ pos 1
        else r
      else r

  unfoldable pub starts_with : List ℕ → List ℕ → Bool
  starts_with p x = leb (length x) (length p) && is_zero (memcmp p x (length x))
