-- ===== src/LogStream/Tests.antt =====
-- Lines of text, and the theorems of the stream at concrete inputs.
use libanet.Common.{
  ℕ, ◌+◌, ◌-◌, ◌^◌, ◌≤◌, ◌<◌, ◌≡◌, refl, ◌⊎◌, Bool, true, Option, none, some, List, [], ◌∷◌, ◌++◌,
  length, if◌then◌else◌, arith,
}
use libanet.Common.Int.{ℤ, pos, negsuc}
use libanet.LogStream.{
  FixedBuffer, Item, integer, pointer, boolean, c_string, bytes, convert, convert_hex, write,
  write_all, is_negative,
}
use libanet.LogStream.Digits.{IsText}
use libanet.LogStream.Numbers.{
  magnitude, decimal_char, decimal_value, convert-IsText, hex_char, hex_value, convert_hex-IsText,
}
use libanet.LogStream.Lines.{
  IsWithin, no_item, item, integer_in, pointer_in, boolean_in, c_string_in, bytes_in, Kept, room,
  write_all-Kept,
}

-- The sign is an underscore.
convert_minus_42 : convert (negsuc 41) ≡ some (b'_' ∷ b'4' ∷ b'2' ∷ [])
unfolding convert
convert_minus_42 = refl

convert_0 : convert (pos 0) ≡ some (b'0' ∷ [])
unfolding convert
convert_0 = refl

convert_hex_255 : convert_hex 255 ≡ some (b'F' ∷ b'F' ∷ [])
unfolding convert_hex
convert_hex_255 = refl

convert-IsText_example :
    (ds : List ℕ) × (convert (negsuc 41) ≡ some (if is_negative (negsuc 41) then b'_' ∷ ds else ds))
    × IsText decimal_char decimal_value 10 20 (magnitude (negsuc 41)) ds
convert-IsText_example = convert-IsText (negsuc 41) (omega arith)

convert_hex-IsText_example :
    (ds : List ℕ) × (convert_hex 48879 ≡ some ds) × IsText hex_char hex_value 16 16 48879 ds
convert_hex-IsText_example = convert_hex-IsText 48879 (omega arith)

-- Room for 59 bytes, of which 4 are taken.
abbrev line : FixedBuffer
line = record { size = 59; text = b'a' ∷ b'n' ∷ b'e' ∷ b't' ∷ [] }

abbrev items : List Item
items =
    bytes (b' ' ∷ b'n' ∷ b'=' ∷ [])
    ∷ integer (pos 1234)
    ∷ boolean true
    ∷ pointer 255
    ∷ c_string none
    ∷ []

-- The pointer no longer finds the room that a number may need.
write_items :
    write_all line items
    ≡ some record {
      size = 59;
      text =
          b'a' ∷ b'n' ∷ b'e' ∷ b't' ∷ b' ' ∷ b'n' ∷ b'=' ∷ b'1' ∷ b'2' ∷ b'3' ∷ b'4' ∷ b'1' ∷ b'('
          ∷ b'n' ∷ b'u' ∷ b'l' ∷ b'l' ∷ b')' ∷ [];
    }
unfolding write_all write libanet.Common.Int.◌-ℤ◌ convert convert_hex
write_items = refl

write_all-Kept_example :
    (b' : FixedBuffer) × (r : List ℕ) × (write_all line items ≡ some b')
    × IsWithin b'
    × (b'.size ≡ line.size)
    × (b'.text ≡ line.text ++ r)
    × Kept (room line) items r
write_all-Kept_example = write_all-Kept line items (omega arith) (
    item bytes_in (
      item (integer_in (omega arith))
        (item boolean_in (item (pointer_in (omega arith)) (item c_string_in no_item)))))
