-- ===== src/LogStream/Digits.antt =====
-- The digits of a number in some base, as a specification for base/LogStream.cc.
use native.Mathlib.Nat.{pow-suc, pow-zero, mod-lt, div-add-mod, div-lt_iff_lt-mul, div-eq_of_lt}
use libanet.Common.{
  ℕ, zero, suc, ◌+◌, ◌*◌, ◌/◌, ◌%◌, ◌^◌, ◌≤◌, ◌<◌, ◌≡◌, refl, sym, ap, ◌∙◌, inl, inr, Option, none,
  some, List, [], ◌∷◌, ◌++◌, length, length-append, ◌==◌, if◌then◌else◌, arith, Bool-cases,
}
use mathlib.Core.List.{append_assoc}

-- The number that digits stand for, by the value of a character.
abbrev pub value_of : (ℕ → ℕ) → ℕ → ℕ → List ℕ → ℕ
value_of value base acc [] = acc
value_of value base acc (c ∷ rest) = value_of value base (acc * base + value c) rest

value_of-append :
    (value : ℕ → ℕ) (base acc : ℕ) (xs ys : List ℕ)
    → value_of value base acc (xs ++ ys) ≡ value_of value base (value_of value base acc xs) ys
value_of-append value base acc [] ys = refl
value_of-append value base acc (x ∷ xs) ys = value_of-append value base (acc * base + value x) xs ys

-- The loop that both conversions make, with the character of a digit.
unfoldable pub digits_loop : (ℕ → ℕ) → ℕ → ℕ → ℕ → List ℕ → Option (List ℕ)
digits_loop char base zero n text = none
digits_loop char base (suc fuel) n text =
    let text' = char (n % base) ∷ text in
    let rest = digits_loop char base fuel (n / base) text' in
    if n / base == 0 then some text' else rest

-- Only characters of digits.
pub data IsSpelled (char : ℕ → ℕ) (base : ℕ) : List ℕ → Type 0 where
  no_digit : IsSpelled char base []
  digit :
      (d : ℕ) {ds : List ℕ} → d < base → IsSpelled char base ds → IsSpelled char base (char d ∷ ds)

IsSpelled-snoc :
    (char : ℕ → ℕ) (base d : ℕ) (ds : List ℕ)
    → d < base
    → IsSpelled char base ds
    → IsSpelled char base (ds ++ (char d ∷ []))
IsSpelled-snoc char base d _ h no_digit = digit d h no_digit
IsSpelled-snoc char base d _ h (digit e {ds = ds} k s) =
    digit e k (IsSpelled-snoc char base d ds h s)

-- The text of `n`: characters of digits, which stand for it, at least one and at most `fuel` of
-- them.
pub record IsText (char value : ℕ → ℕ) (base fuel n : ℕ) (ds : List ℕ) : Type 0 where
  pub spelled : IsSpelled char base ds
  pub stands_for : value_of value base 0 ds ≡ n
  pub some_digit : 1 ≤ length ds
  pub short : length ds ≤ fuel

module _ (char value : ℕ → ℕ) (base : ℕ) (big : 2 ≤ base)
    (inverse : (d : ℕ) → d < base → value (char d) ≡ d) where
  last_digit : (n : ℕ) → value (char (n % base)) ≡ n % base
  last_digit n = inverse (n % base) (mod-lt n (omega arith))

  low_digit : (n : ℕ) → n / base ≡ 0 → n % base ≡ n
  low_digit n h = omega (arith, div-add-mod n base, ap (λ q. base * q) h)

  one_digit :
      (fuel n : ℕ) → n / base ≡ 0 → IsText char value base (suc fuel) n (char (n % base) ∷ [])
  one_digit fuel n h = record {
    spelled = digit (n % base) (mod-lt n (omega arith)) no_digit;
    stands_for = omega (arith, last_digit n, low_digit n h);
    some_digit = omega arith;
    short = omega arith;
  }

  more_digits :
      (fuel n : ℕ) (ds : List ℕ)
      → IsText char value base fuel (n / base) ds
      → IsText char value base (suc fuel) n (ds ++ (char (n % base) ∷ []))
  more_digits fuel n ds t = record {
    spelled = IsSpelled-snoc char base (n % base) ds (mod-lt n (omega arith)) t.spelled;
    stands_for =
        value_of-append value base 0 ds (char (n % base) ∷ [])
        ∙ rw t.stands_for (rw (last_digit n) (omega (arith, div-add-mod n base)));
    some_digit = omega (arith, length-append ds (char (n % base) ∷ []), t.some_digit);
    short = omega (arith, length-append ds (char (n % base) ∷ []), t.short);
  }

  div_below : (n fuel : ℕ) → n < base ^ suc (suc fuel) → n / base < base ^ suc fuel
  div_below n fuel h =
      (div-lt_iff_lt-mul {k = base} {x = n} {y = base ^ suc fuel} (omega arith)).1
        (omega (arith, h, pow-suc base (suc fuel)))

  -- With fuel for its digits, a number is printed before the text.
  pub digits_loop-IsText :
      (fuel n : ℕ) (text : List ℕ)
      → n < base ^ suc fuel
      → (ds : List ℕ) × (digits_loop char base (suc fuel) n text ≡ some (ds ++ text))
        × IsText char value base (suc fuel) n ds
  unfolding digits_loop
  digits_loop-IsText zero n text h =
      let done =
        div-eq_of_lt {n = n} {m = base}
          (omega (arith, h, pow-suc base 0, ap (λ p. p * base) (pow-zero base))) in
      (char (n % base) ∷ [], rw done refl, one_digit 0 n done)
  digits_loop-IsText (suc fuel) n text h = elim (Bool-cases (n / base == 0)) [
    | inl last ↦ (char (n % base) ∷ [], rw last refl, one_digit (suc fuel) n (ground arith))
    | inr more ↦
        let found =
          digits_loop-IsText fuel (n / base) (char (n % base) ∷ text) (div_below n fuel h) in
        let ds = found.0 in
        (
          ds ++ (char (n % base) ∷ []),
          rw more (found.1 ∙ ap some (sym (append_assoc ds (char (n % base) ∷ []) text))),
          more_digits (suc fuel) n ds found.2,
        )
  ]
