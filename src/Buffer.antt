-- ===== src/Buffer.antt =====
-- net/Buffer.h: class Buffer. A byte is a number below 256, the vector `buffer_` a list, and a
-- pointer into it the index that it points at. `none` is an abort: a failed assert, or the
-- length_error that `resize` throws above max_size(). The operands of type size_t wrap at 2 ^ 64.
pub mod Space
pub mod Bytes
mod Refinement
mod Integers
mod Search
mod Tests
use libanet.Common.{
  ℕ, zero, suc, ◌+◌, ◌-◌, ◌*◌, ◌/◌, ◌%◌, ◌&&◌, Option, none, some, List, [], ◌∷◌, ◌++◌, length,
  take, replicate, ltb, leb, ◌==◌, if◌then◌else◌,
}
use mathlib.Core.Option
use libanet.Common.Options.{◌>>=◌, ◌>>◌, check}
use libanet.Common.Ints.{int_max}
use libanet.Common.Words.{max_size, add_size, sub_size}
use libanet.Common.Slices.{copy_to, slice}

abbrev pub cheap_prepend : ℕ
cheap_prepend = 8

abbrev pub initial_size : ℕ
initial_size = 1024

pub record Buffer : Type 0 where
  pub buffer : List ℕ
  pub reader_index : ℕ
  pub writer_index : ℕ

unfoldable pub create : ℕ → Buffer
create initial = record {
  buffer = replicate (cheap_prepend + initial) 0;
  reader_index = cheap_prepend;
  writer_index = cheap_prepend;
}

abbrev pub readable_bytes : Buffer → ℕ
readable_bytes b = sub_size b.writer_index b.reader_index

abbrev pub writable_bytes : Buffer → ℕ
writable_bytes b = sub_size (length b.buffer) b.writer_index

abbrev pub prependable_bytes : Buffer → ℕ
prependable_bytes b = b.reader_index

-- std::string(peek(), len)
abbrev pub bytes_at : Buffer → ℕ → ℕ → List ℕ
bytes_at b i len = slice i len b.buffer

-- std::search for the two bytes of kCRLF, which no file of the repository defines.
pub search_pair : ℕ → ℕ → List ℕ → Option ℕ
search_pair c l [] = none
search_pair c l (x ∷ []) = none
search_pair c l (x ∷ y ∷ rest) =
    if (x == c) && (y == l) then some 0 else Option.map suc (search_pair c l (y ∷ rest))

-- findCRLF(start): the index of the first kCRLF from `start`.
unfoldable pub find_crlf : ℕ → ℕ → Buffer → ℕ → Option (Option ℕ)
find_crlf c l b start = do
  check (leb b.reader_index start)
  check (leb start b.writer_index)
  some (
      Option.map (λ i. start + i)
        (search_pair c l (bytes_at b start (sub_size b.writer_index start))))

-- memchr
pub search_byte : ℕ → List ℕ → Option ℕ
search_byte c [] = none
search_byte c (x ∷ rest) = if x == c then some 0 else Option.map suc (search_byte c rest)

-- findEOL(start)
unfoldable pub find_eol : Buffer → ℕ → Option (Option ℕ)
find_eol b start = do
  check (leb b.reader_index start)
  check (leb start b.writer_index)
  some (
      Option.map (λ i. start + i)
        (search_byte 10 (bytes_at b start (sub_size b.writer_index start))))

unfoldable pub retrieve_all : Buffer → Buffer
retrieve_all b = record b { reader_index = cheap_prepend; writer_index = cheap_prepend }

unfoldable pub retrieve : Buffer → ℕ → Option Buffer
retrieve b len = do
  check (leb len (readable_bytes b))
  some (
      if ltb len (readable_bytes b)
      then record b { reader_index = add_size b.reader_index len }
      else retrieve_all b)

unfoldable pub retrieve_until : Buffer → ℕ → Option Buffer
retrieve_until b end = do
  check (leb b.reader_index end)
  check (leb end b.writer_index)
  retrieve b (sub_size end b.reader_index)

unfoldable pub retireve_as_string : Buffer → ℕ → Option (List ℕ × Buffer)
retireve_as_string b len = do
  check (leb len (readable_bytes b))
  let result = bytes_at b b.reader_index len
  b' ← retrieve b len
  some (result, b')

unfoldable pub retrieve_all_as_string : Buffer → Option (List ℕ × Buffer)
retrieve_all_as_string b = retireve_as_string b (readable_bytes b)

-- buffer_.resize(n)
unfoldable pub resize : List ℕ → ℕ → Option (List ℕ)
resize xs n = if leb n max_size then some (take n xs ++ replicate (n - length xs) 0) else none

-- The copy goes to lower addresses, so that the overlap of std::copy is harmless.
unfoldable pub make_space : Buffer → ℕ → Option Buffer
make_space b len =
    if ltb (add_size (writable_bytes b) (prependable_bytes b)) (add_size len cheap_prepend)
    then (do xs ← resize b.buffer (add_size b.writer_index len); some (record b { buffer = xs }))
    else (do
      check (ltb cheap_prepend b.reader_index)
      let readable = readable_bytes b
      some (record {
        buffer = copy_to b.buffer cheap_prepend (bytes_at b b.reader_index readable);
        reader_index = cheap_prepend;
        writer_index = add_size cheap_prepend readable;
      }))

unfoldable pub ensure_writable_bytes : Buffer → ℕ → Option Buffer
ensure_writable_bytes b len = do
  b' ← if ltb (writable_bytes b) len then make_space b len else some b
  check (leb len (writable_bytes b'))
  some b'

unfoldable pub has_written : Buffer → ℕ → Option Buffer
has_written b len = do
  check (leb len (writable_bytes b))
  some (record b { writer_index = add_size b.writer_index len })

unfoldable pub unwrite : Buffer → ℕ → Option Buffer
unwrite b len = do
  check (leb len (readable_bytes b))
  some (record b { writer_index = sub_size b.writer_index len })

unfoldable pub append : Buffer → List ℕ → Option Buffer
append b bytes = do
  b' ← ensure_writable_bytes b (length bytes)
  has_written (record b' { buffer = copy_to b'.buffer b'.writer_index bytes }) (length bytes)

unfoldable pub prepend : Buffer → List ℕ → Option Buffer
prepend b bytes = do
  check (leb (length bytes) (prependable_bytes b))
  let reader = sub_size b.reader_index (length bytes)
  some (record b { reader_index = reader; buffer = copy_to b.buffer reader bytes })

-- toStringPiece(), whose length is the low 32 bits of readableBytes() as an int. `none` is a negative
-- length, for `shrink`: as a size_t it is near 2 ^ 64, and `append` to a fresh buffer then throws, or
-- fails its assert when the sum with kCheapPrepend wraps.
unfoldable pub to_string_piece : Buffer → Option (List ℕ)
to_string_piece b = do
  let length = readable_bytes b % 4294967296
  check (leb length int_max)
  some (bytes_at b b.reader_index length)

-- The new buffer takes the place of the old by `swap`.
unfoldable pub shrink : Buffer → ℕ → Option Buffer
unfolding to_string_piece
shrink b reserve = do
  other ← ensure_writable_bytes (create initial_size) (add_size (readable_bytes b) reserve)
  piece ← to_string_piece b
  append other piece

-- The `n` bytes that memcpy reads from hostToNetwork(x), for a value of n bytes: x is the bit
-- pattern, of either sign, and the bytes stand in network order.
unfoldable pub big_endian : ℕ → ℕ → List ℕ
big_endian zero x = []
big_endian (suc n) x = big_endian n (x / 256) ++ (x % 256) ∷ []

-- networkToHost of the bytes that memcpy writes into a value.
unfoldable pub from_big_endian : ℕ → List ℕ → ℕ
from_big_endian acc [] = acc
from_big_endian acc (x ∷ rest) = from_big_endian (acc * 256 + x) rest

-- appendInt64, appendInt32, appendInt16 and appendInt8, with the size in bytes as argument.
unfoldable pub append_int : ℕ → Buffer → ℕ → Option Buffer
append_int size b x = append b (big_endian size x)

-- peekInt64, peekInt32, peekInt16 and peekInt8.
unfoldable pub peek_int : ℕ → Buffer → Option ℕ
peek_int size b = do
  check (leb size (readable_bytes b))
  some (from_big_endian 0 (bytes_at b b.reader_index size))

-- readInt64, readInt32, readInt16 and readInt8, by retrieveInt64 and so on.
unfoldable pub read_int : ℕ → Buffer → Option (ℕ × Buffer)
read_int size b = do result ← peek_int size b; b' ← retrieve b size; some (result, b')

-- prependInt64, prependInt32, prependInt16 and prependInt8.
unfoldable pub prepend_int : ℕ → Buffer → ℕ → Option Buffer
prepend_int size b x = prepend b (big_endian size x)
