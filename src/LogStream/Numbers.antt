-- ===== src/LogStream/Numbers.antt =====
-- `convert` and `convert_hex` of base/LogStream.cc against the digits of a number.
use libanet.Common.{
  ℕ, zero, suc, ◌+◌, ◌-◌, ◌/◌, ◌%◌, ◌^◌, ◌<◌, ◌≡◌, refl, ap, ◌∙◌, some, List, [], ◌∷◌, ◌==◌, ltb,
  if◌then◌else◌, get_or, arith, agree_below-at,
}
use libanet.Common.Int.{ℤ, pos, negsuc, ◌-ℤ◌, ◌+ℤ◌, ◌/ℤ◌, ◌%ℤ◌, pos_part, neg_part}
use libanet.Common.Options.{◌>>=◌}
use mathlib.Core.List.{append-nil}
use libanet.LogStream.{
  digits_hex, digit_at, convert_loop, convert, is_zero, is_negative, convert_hex_loop, convert_hex,
}
use libanet.LogStream.Digits.{digits_loop, digits_loop-IsText, IsText}

abbrev pub magnitude : ℤ → ℕ
magnitude i = pos_part i + neg_part i

abbrev pub decimal_char : ℕ → ℕ
decimal_char d = 48 + d

abbrev pub decimal_value : ℕ → ℕ
decimal_value c = c - 48

digit_at-pos : (k : ℕ) → k < 10 → digit_at (pos k) ≡ decimal_char k
unfolding digit_at ◌+ℤ◌
digit_at-pos = agree_below-at 10 (λ k. digit_at (pos k)) decimal_char refl

-- The table is read to the left of its middle for the remainder of a negative number.
digit_at-neg : (k : ℕ) → k < 10 → digit_at (pos 0 -ℤ pos k) ≡ decimal_char k
unfolding digit_at ◌+ℤ◌ ◌-ℤ◌
digit_at-neg = agree_below-at 10 (λ k. digit_at (pos 0 -ℤ pos k)) decimal_char refl

digit_at-rem : (i : ℤ) → digit_at (i %ℤ 10) ≡ decimal_char (magnitude i % 10)
digit_at-rem (pos a) = digit_at-pos (a % 10) (omega arith) ∙ omega arith
digit_at-rem (negsuc a) = digit_at-neg (suc a % 10) (omega arith) ∙ omega arith

magnitude-neg : (q : ℕ) → magnitude (pos 0 -ℤ pos q) ≡ q
unfolding ◌-ℤ◌
magnitude-neg q = ground arith

magnitude-quot : (i : ℤ) → magnitude (i /ℤ 10) ≡ magnitude i / 10
magnitude-quot (pos a) = omega arith
magnitude-quot (negsuc a) = magnitude-neg (suc a / 10) ∙ omega arith

is_zero-magnitude : (i : ℤ) → is_zero i ≡ (magnitude i == 0)
is_zero-magnitude i = ground arith

convert_loop-digits :
    (fuel : ℕ) (i : ℤ) (text : List ℕ)
    → convert_loop fuel i text ≡ digits_loop decimal_char 10 fuel (magnitude i) text
unfolding convert_loop digits_loop
convert_loop-digits zero i text = refl
convert_loop-digits (suc fuel) i text =
    rw
      (
        is_zero-magnitude (i /ℤ 10),
        convert_loop-digits fuel (i /ℤ 10) (digit_at (i %ℤ 10) ∷ text),
        magnitude-quot i,
        digit_at-rem i,
      )
      refl

-- With a magnitude of 20 digits at most, which every integer of 64 bits has, convert returns: the
-- digits stand for the magnitude, and a negative number has one more character, '_', before them.
pub convert-IsText :
    (v : ℤ)
    → magnitude v < 10 ^ 20
    → (ds : List ℕ) × (convert v ≡ some (if is_negative v then b'_' ∷ ds else ds))
      × IsText decimal_char decimal_value 10 20 (magnitude v) ds
unfolding convert
convert-IsText v h =
    let t =
      digits_loop-IsText decimal_char decimal_value 10 (omega arith) (λ d hd. omega arith) 19
        (magnitude v) [] h in
    (
      t.0,
      ap (λ r. r >>= λ text. some (if is_negative v then b'_' ∷ text else text))
          (convert_loop-digits 20 v [] ∙ t.1 ∙ ap some (append-nil t.0)),
      t.2,
    )

abbrev pub hex_value : ℕ → ℕ
hex_value c = if ltb c 58 then c - 48 else c - 55

abbrev pub hex_char : ℕ → ℕ
hex_char d = get_or digits_hex d 0

hex_value-char : (d : ℕ) → d < 16 → hex_value (hex_char d) ≡ d
hex_value-char = agree_below-at 16 (λ d. hex_value (hex_char d)) (λ d. d) refl

convert_hex_loop-digits :
    (fuel i : ℕ) (text : List ℕ)
    → convert_hex_loop fuel i text ≡ digits_loop hex_char 16 fuel i text
unfolding convert_hex_loop digits_loop
convert_hex_loop-digits zero i text = refl
convert_hex_loop-digits (suc fuel) i text =
    rw (convert_hex_loop-digits fuel (i / 16) (hex_char (i % 16) ∷ text)) refl

-- convert_hex returns on every number of 64 bits, with hexadecimal digits that stand for it.
pub convert_hex-IsText :
    (v : ℕ)
    → v < 16 ^ 16
    → (ds : List ℕ) × (convert_hex v ≡ some ds) × IsText hex_char hex_value 16 16 v ds
unfolding convert_hex
convert_hex-IsText v h =
    let t = digits_loop-IsText hex_char hex_value 16 (omega arith) hex_value-char 15 v [] h in
    (t.0, convert_hex_loop-digits 16 v [] ∙ t.1 ∙ ap some (append-nil t.0), t.2)
