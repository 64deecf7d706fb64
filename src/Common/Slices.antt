-- ===== src/Common/Slices.antt =====
-- Byte ranges: what std::copy writes into an array, and the range between two indices.
use native.Mathlib.Nat.{zero-add, suc-add, sub-zero, zero-sub, suc-sub-suc}
use libanet.Common.{
  ℕ, zero, suc, ◌+◌, ◌-◌, ◌≤◌, ◌≡◌, refl, ap, List, [], ◌∷◌, ◌++◌, arith, length, take, drop,
  length-take, length-drop,
}

module _ {ℓ} {A : Type ℓ} where
  -- std::copy of `ys` to the array `xs` from index `i`. A write past the end is dropped.
  abbrev pub copy_to : List A → ℕ → List A → List A
  copy_to [] i ys = []
  copy_to (x ∷ xs) zero [] = x ∷ xs
  copy_to (x ∷ xs) zero (y ∷ ys) = y ∷ copy_to xs zero ys
  copy_to (x ∷ xs) (suc i) ys = x ∷ copy_to xs i ys

  -- The `n` elements from index `i`.
  abbrev pub slice : ℕ → ℕ → List A → List A
  slice i n xs = take n (drop i xs)

  drop-nil : (k : ℕ) → drop {A = A} k [] ≡ []
  drop-nil zero = refl
  drop-nil (suc k) = refl

  slice-nil : (i n : ℕ) → slice i n [] ≡ []
  slice-nil zero zero = refl
  slice-nil (suc i) zero = refl
  slice-nil zero (suc n) = refl
  slice-nil (suc i) (suc n) = refl

  pub length-copy_to : (xs : List A) (i : ℕ) (ys : List A) → length (copy_to xs i ys) ≡ length xs
  length-copy_to [] i ys = refl
  length-copy_to (x ∷ xs) zero [] = refl
  length-copy_to (x ∷ xs) zero (y ∷ ys) = ap suc (length-copy_to xs zero ys)
  length-copy_to (x ∷ xs) (suc i) ys = ap suc (length-copy_to xs i ys)

  pub length-slice : (i n : ℕ) (xs : List A) → i + n ≤ length xs → length (slice i n xs) ≡ n
  length-slice i n xs h = omega (arith, length-take {ℓ} n (drop i xs), length-drop {ℓ} i xs)

  -- What was written is what stands there.
  pub slice-copy_to :
      (xs : List A) (i n : ℕ) (ys : List A)
      → n ≡ length ys
      → i + n ≤ length xs
      → slice i n (copy_to xs i ys) ≡ ys
  slice-copy_to [] zero zero [] e h = refl
  slice-copy_to [] zero zero (y ∷ ys) e h = absurd (omega arith)
  slice-copy_to [] zero (suc n) ys e h = absurd (omega arith)
  slice-copy_to [] (suc i) n ys e h = absurd (omega arith)
  slice-copy_to (x ∷ xs) zero zero [] e h = refl
  slice-copy_to (x ∷ xs) zero (suc n) [] e h = absurd (omega arith)
  slice-copy_to (x ∷ xs) zero zero (y ∷ ys) e h = absurd (omega arith)
  slice-copy_to (x ∷ xs) zero (suc n) (y ∷ ys) e h =
      ap (◌∷◌ y) (slice-copy_to xs zero n ys (omega arith) (omega arith))
  slice-copy_to (x ∷ xs) (suc i) n ys e h = slice-copy_to xs i n ys e (omega arith)

  -- A write beyond a range leaves the range.
  pub slice-copy_to_before :
      (xs : List A) (i j n : ℕ) (ys : List A)
      → i + n ≤ j
      → slice i n (copy_to xs j ys) ≡ slice i n xs
  slice-copy_to_before [] i j n ys h = refl
  slice-copy_to_before (x ∷ xs) zero zero zero [] h = refl
  slice-copy_to_before (x ∷ xs) zero zero zero (y ∷ ys) h = refl
  slice-copy_to_before (x ∷ xs) zero zero (suc n) ys h = absurd (omega arith)
  slice-copy_to_before (x ∷ xs) (suc i) zero n ys h = absurd (omega arith)
  slice-copy_to_before (x ∷ xs) zero (suc j) zero ys h = refl
  slice-copy_to_before (x ∷ xs) zero (suc j) (suc n) ys h =
      ap (◌∷◌ x) (slice-copy_to_before xs zero j n ys (omega arith))
  slice-copy_to_before (x ∷ xs) (suc i) (suc j) n ys h =
      slice-copy_to_before xs i j n ys (omega arith)

  -- So does a write that ends before it.
  pub slice-copy_to_after :
      (xs : List A) (i j n : ℕ) (ys : List A)
      → j + length ys ≤ i
      → slice i n (copy_to xs j ys) ≡ slice i n xs
  slice-copy_to_after [] i j n ys h = refl
  slice-copy_to_after (x ∷ xs) i zero n [] h = refl
  slice-copy_to_after (x ∷ xs) zero zero n (y ∷ ys) h = absurd (omega arith)
  slice-copy_to_after (x ∷ xs) (suc i) zero n (y ∷ ys) h =
      slice-copy_to_after xs i zero n ys (omega arith)
  slice-copy_to_after (x ∷ xs) zero (suc j) n ys h = absurd (omega arith)
  slice-copy_to_after (x ∷ xs) (suc i) (suc j) n ys h =
      slice-copy_to_after xs i j n ys (omega arith)

  -- A prefix as long as the list is the list.
  pub take-length : (n : ℕ) (xs : List A) → length xs ≤ n → take n xs ≡ xs
  take-length zero [] h = refl
  take-length zero (x ∷ xs) h = absurd (omega arith)
  take-length (suc n) [] h = refl
  take-length (suc n) (x ∷ xs) h = ap (◌∷◌ x) (take-length n xs (omega arith))

  take-add : (n m : ℕ) (xs : List A) → take (n + m) xs ≡ take n xs ++ take m (drop n xs)
  take-add zero m xs = rw zero-add refl
  take-add (suc n) m [] = rw (suc-add, slice-nil (suc n) m) refl
  take-add (suc n) m (x ∷ xs) = rw suc-add (ap (◌∷◌ x) (take-add n m xs))

  drop-add : (i n : ℕ) (xs : List A) → drop (i + n) xs ≡ drop n (drop i xs)
  drop-add zero n xs = rw zero-add refl
  drop-add (suc i) n [] = rw (suc-add, drop-nil n) refl
  drop-add (suc i) n (x ∷ xs) = rw suc-add (drop-add i n xs)

  drop-take : (k n : ℕ) (xs : List A) → drop k (take n xs) ≡ take (n - k) (drop k xs)
  drop-take zero n xs = rw sub-zero refl
  drop-take (suc k) zero xs = rw zero-sub refl
  drop-take (suc k) (suc n) [] = rw (slice-nil (suc k) (suc n - suc k)) refl
  drop-take (suc k) (suc n) (x ∷ xs) = rw suc-sub-suc (drop-take k n xs)

  take-take : (k n : ℕ) (xs : List A) → k ≤ n → take k (take n xs) ≡ take k xs
  take-take zero n xs h = refl
  take-take (suc k) zero xs h = absurd (omega arith)
  take-take (suc k) (suc n) [] h = refl
  take-take (suc k) (suc n) (x ∷ xs) h = ap (◌∷◌ x) (take-take k n xs (omega arith))

  -- Two adjacent ranges make one.
  pub slice-append :
      (xs : List A) (i n m : ℕ) → slice i (n + m) xs ≡ slice i n xs ++ slice (i + n) m xs
  slice-append xs i n m = rw (drop-add i n xs) (take-add n m (drop i xs))

  pub slice-append_left :
      (xs zs : List A) (i n : ℕ) → i + n ≤ length xs → slice i n (xs ++ zs) ≡ slice i n xs
  slice-append_left [] zs zero zero h = refl
  slice-append_left [] zs (suc i) n h = absurd (omega arith)
  slice-append_left [] zs zero (suc n) h = absurd (omega arith)
  slice-append_left (x ∷ xs) zs zero zero h = refl
  slice-append_left (x ∷ xs) zs zero (suc n) h =
      ap (◌∷◌ x) (slice-append_left xs zs zero n (omega arith))
  slice-append_left (x ∷ xs) zs (suc i) n h = slice-append_left xs zs i n (omega arith)

  -- A part of a range, dropped from its front.
  pub drop-slice : (xs : List A) (i k n : ℕ) → drop k (slice i n xs) ≡ slice (i + k) (n - k) xs
  drop-slice xs i k n = rw (drop-add i k xs) (drop-take k n (drop i xs))

  pub take-slice : (xs : List A) (i k n : ℕ) → k ≤ n → take k (slice i n xs) ≡ slice i k xs
  take-slice xs i k n h = take-take k n (drop i xs) h
