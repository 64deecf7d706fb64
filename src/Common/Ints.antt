-- ===== src/Common/Ints.antt =====
-- The type int of 32 bits: an operation whose result it does not hold is undefined in C++.
use libanet.Common.{
  ℕ, ◌-◌, ◌%◌, ◌≤◌, ◌≡◌, refl, ◌⊎◌, Bool, true, ◌&&◌, List, [], ◌∷◌, arith, leb, if◌then◌else◌,
  le→leb,
}
use libanet.Common.Int.{ℤ, pos, negsuc, pos_part, neg_part}

abbrev pub int_max : ℕ
int_max = 2147483647

abbrev pub is_int : ℤ → Bool
is_int (pos n) = leb n int_max
is_int (negsuc n) = leb n int_max

abbrev pub all_ints : List ℤ → Bool
all_ints [] = true
all_ints (x ∷ xs) = is_int x && all_ints xs

-- A conversion to int, which keeps the low 32 bits.
unfoldable pub narrow_int : ℤ → ℤ
narrow_int (pos n) =
    let low = n % 4294967296 in if leb low int_max then pos low else negsuc (4294967295 - low)
narrow_int (negsuc n) =
    let low = n % 4294967296 in if leb low int_max then negsuc low else pos (4294967295 - low)

-- Within the bounds of an int, but for the least of them
abbrev pub IsInt : ℤ → Type 0
IsInt x = (pos_part x ≤ int_max) × (neg_part x ≤ int_max)

abbrev pub AllInts : List ℤ → Type 0
AllInts [] = Unit
AllInts (x ∷ xs) = IsInt x × AllInts xs

pub is_int-IsInt : (x : ℤ) → IsInt x → is_int x ≡ true
is_int-IsInt (pos n) h = le→leb n int_max h.0
is_int-IsInt (negsuc n) h = le→leb n int_max (omega (arith, h.1))

pub all_ints-AllInts : (xs : List ℤ) → AllInts xs → all_ints xs ≡ true
all_ints-AllInts [] h = refl
all_ints-AllInts (x ∷ xs) h = rw (is_int-IsInt x h.0) (all_ints-AllInts xs h.1)

pub narrow_int-IsInt : (x : ℤ) → IsInt x → narrow_int x ≡ x
unfolding narrow_int
narrow_int-IsInt (pos n) h = rw (same n (omega (arith, h.0)), le→leb n int_max h.0) refl
  where
    same : (n : ℕ) → n ≤ int_max → n % 4294967296 ≡ n
    same n k = omega arith
narrow_int-IsInt (negsuc n) h =
    rw (same n (omega (arith, h.1)), le→leb n int_max (omega (arith, h.1))) refl
  where
    same : (n : ℕ) → n ≤ int_max → n % 4294967296 ≡ n
    same n k = omega arith

-- An integer is not on both sides of 0.
pub one_part : (x : ℤ) → (pos_part x ≡ 0) ⊎ (neg_part x ≡ 0)
one_part x = ground arith
