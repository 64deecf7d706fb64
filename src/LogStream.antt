-- ===== src/LogStream.antt =====
-- base/LogStream.h and base/LogStream.cc: numbers as text, and the buffer of a log line. A char is
-- its code. A buffer is the bytes before `cur_`; what lies behind them is not modelled, nor are the
-- cookies, the text of doubles and formats (snprintf), formatSI and formatIEC.
mod Digits
mod Numbers
pub mod Lines
mod Tests
use libanet.Common.{
  ℕ, zero, suc, ◌+◌, ◌-◌, ◌*◌, ◌/◌, ◌%◌, Bool, true, false, Option, none, some, List, [], ◌∷◌, ◌++◌,
  length, get_or, ◌||◌, ltb, leb, ◌==◌, if◌then◌else◌,
}
use libanet.Common.Int.{ℤ, pos, negsuc, ◌+ℤ◌, ◌-ℤ◌, ◌/ℤ◌, ◌%ℤ◌, ltb_ℤ, pos_part}
use libanet.Common.Options.{◌>>=◌}

-- "9876543210123456789", without its NUL.
abbrev pub digits : List ℕ
digits =
    b'9' ∷ b'8' ∷ b'7' ∷ b'6' ∷ b'5' ∷ b'4' ∷ b'3' ∷ b'2' ∷ b'1' ∷ b'0' ∷ b'1' ∷ b'2' ∷ b'3' ∷ b'4'
    ∷ b'5' ∷ b'6' ∷ b'7' ∷ b'8' ∷ b'9' ∷ []

abbrev pub digits_hex : List ℕ
digits_hex =
    b'0' ∷ b'1' ∷ b'2' ∷ b'3' ∷ b'4' ∷ b'5' ∷ b'6' ∷ b'7' ∷ b'8' ∷ b'9' ∷ b'A' ∷ b'B' ∷ b'C' ∷ b'D'
    ∷ b'E' ∷ b'F' ∷ []

-- zero[lsd], where `zero` is digits + 9.
unfoldable pub digit_at : ℤ → ℕ
unfolding ◌+ℤ◌
digit_at lsd = get_or digits (pos_part (pos 9 +ℤ lsd)) 0

abbrev pub is_zero : ℤ → Bool
is_zero (pos n) = n == 0
is_zero (negsuc n) = false

-- The loop of `convert`. `text` is what was written, the last character first: the order that
-- std::reverse leaves. `none` means that the fuel ran out.
unfoldable pub convert_loop : ℕ → ℤ → List ℕ → Option (List ℕ)
unfolding digit_at ◌-ℤ◌
convert_loop zero i text = none
convert_loop (suc fuel) i text =
    let text' = digit_at (i %ℤ 10) ∷ text in
    let rest = convert_loop fuel (i /ℤ 10) text' in if is_zero (i /ℤ 10) then some text' else rest

abbrev pub is_negative : ℤ → Bool
is_negative (pos n) = false
is_negative (negsuc n) = true

-- An integer of 64 bits has 20 digits at most.
abbrev pub max_digits : ℕ
max_digits = 20

unfoldable pub convert : ℤ → Option (List ℕ)
unfolding convert_loop
convert value = do
  text ← convert_loop max_digits value []
  some (if is_negative value then b'_' ∷ text else text)

unfoldable pub convert_hex_loop : ℕ → ℕ → List ℕ → Option (List ℕ)
convert_hex_loop zero i text = none
convert_hex_loop (suc fuel) i text =
    let text' = get_or digits_hex (i % 16) 0 ∷ text in
    let rest = convert_hex_loop fuel (i / 16) text' in if i / 16 == 0 then some text' else rest

unfoldable pub convert_hex : ℕ → Option (List ℕ)
unfolding convert_hex_loop
convert_hex value = convert_hex_loop 16 value []

pub record FixedBuffer : Type 0 where
  pub size : ℕ
  pub text : List ℕ

abbrev pub small_buffer : ℕ
small_buffer = 4000

abbrev pub large_buffer : ℕ
large_buffer = 4000 * 1000

-- An int: it is negative if too much was written.
abbrev pub avail : FixedBuffer → ℤ
avail b = pos b.size -ℤ pos (length b.text)

-- The comparison is of size_t, so a negative avail() would be a large number.
unfoldable pub append : FixedBuffer → List ℕ → FixedBuffer
append b bytes =
    if is_negative (avail b) || ltb (length bytes) (pos_part (avail b))
    then record b { text = b.text ++ bytes }
    else b

-- The text that was written at current(), and add().
unfoldable pub add : FixedBuffer → List ℕ → FixedBuffer
add b bytes = record b { text = b.text ++ bytes }

unfoldable pub reset : FixedBuffer → FixedBuffer
reset b = record b { text = [] }

abbrev pub max_numeric_size : ℕ
max_numeric_size = 48

abbrev pub has_numeric_room : FixedBuffer → Bool
has_numeric_room b = leb max_numeric_size (pos_part (avail b))

-- LogStream::formatInteger
unfoldable pub format_integer : FixedBuffer → ℤ → Option FixedBuffer
unfolding add
format_integer b v = if has_numeric_room b then (do text ← convert v; some (add b text)) else some b

-- operator<<(const void *)
unfoldable pub format_pointer : FixedBuffer → ℕ → Option FixedBuffer
unfolding add
format_pointer b v =
    if has_numeric_room b
    then (do text ← convert_hex v; some (add b (b'0' ∷ b'x' ∷ text)))
    else some b

-- operator<<(bool)
unfoldable pub format_bool : FixedBuffer → Bool → FixedBuffer
unfolding append
format_bool b v = append b (if v then b'1' ∷ [] else b'0' ∷ [])

-- operator<<(const char *), which may be NULL.
unfoldable pub format_c_string : FixedBuffer → Option (List ℕ) → FixedBuffer
unfolding append
format_c_string b (some str) = append b str
format_c_string b none = append b (b'(' ∷ b'n' ∷ b'u' ∷ b'l' ∷ b'l' ∷ b')' ∷ [])

-- What may be written to a stream: a string, a string piece, a char or another stream's buffer is
-- `bytes`.
pub data Item : Type 0 where
  integer : ℤ → Item
  pointer : ℕ → Item
  boolean : Bool → Item
  c_string : Option (List ℕ) → Item
  bytes : List ℕ → Item

unfoldable pub write : FixedBuffer → Item → Option FixedBuffer
unfolding format_integer format_pointer format_bool format_c_string append
write b (integer v) = format_integer b v
write b (pointer v) = format_pointer b v
write b (boolean v) = some (format_bool b v)
write b (c_string s) = some (format_c_string b s)
write b (bytes s) = some (append b s)

unfoldable pub write_all : FixedBuffer → List Item → Option FixedBuffer
write_all b [] = some b
write_all b (x ∷ xs) = write b x >>= λ c. write_all c xs
