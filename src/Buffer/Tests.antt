-- ===== src/Buffer/Tests.antt =====
-- Runs of the buffer's operations, and the theorems at concrete inputs.
use libanet.Common.{ℕ, ◌+◌, ◌≡◌, refl, Option, none, some, [], ◌∷◌, arith}
use mathlib.Core.Option
use libanet.Common.Words.{add_size, sub_size}
use libanet.Buffer.{
  Buffer, create, search_pair, find_crlf, find_eol, search_byte, retrieve, retrieve_all,
  retireve_as_string, resize, make_space, ensure_writable_bytes, has_written, append, prepend,
  shrink, big_endian, from_big_endian, append_int, peek_int, read_int, prepend_int,
}
use libanet.Buffer.Space.{IsValid, contents, HasSpace, make_space-HasSpace}
use libanet.Buffer.Refinement.{Refines, perform, appends, takes, perform-Refines}
use libanet.Buffer.Integers.{read_int-big_endian, read_int-append_int}
use libanet.Buffer.Search.{PairAt, ByteAt, IsFirst, find_crlf-IsFirst, find_eol-IsFirst}

operations : Unit {0}
unfolding add_size sub_size create search_pair find_crlf find_eol search_byte retrieve retrieve_all
    retireve_as_string resize make_space ensure_writable_bytes has_written append prepend shrink
    big_endian from_big_endian append_int peek_int read_int prepend_int
operations = tt

-- Two bytes of room behind the write index, two bytes read already.
abbrev small : Buffer
small = record {
  buffer = 0 ∷ 0 ∷ 0 ∷ 0 ∷ 0 ∷ 0 ∷ 0 ∷ 0 ∷ 5 ∷ 6 ∷ 13 ∷ 10 ∷ 0 ∷ 0 ∷ [];
  reader_index = 10;
  writer_index = 12;
}

small-IsValid : IsValid small
small-IsValid = omega arith

abbrev digits : Buffer
digits = record small { buffer = 0 ∷ 0 ∷ 0 ∷ 0 ∷ 0 ∷ 0 ∷ 0 ∷ 0 ∷ 0 ∷ 0 ∷ 1 ∷ 2 ∷ 0 ∷ 0 ∷ [] }

abbrev drained : Buffer
drained = record small { reader_index = 8; writer_index = 8 }

runs :
    (Option.map (λ b. contents b) (append small (1 ∷ 2 ∷ 3 ∷ 4 ∷ []))
      ≡ some (13 ∷ 10 ∷ 1 ∷ 2 ∷ 3 ∷ 4 ∷ []))
    × (Option.map (λ b. contents b) (retrieve small 1) ≡ some (10 ∷ []))
    × (retrieve small 3 ≡ none)
    × (prepend drained (1 ∷ 2 ∷ 3 ∷ 4 ∷ 5 ∷ 6 ∷ 7 ∷ 8 ∷ 9 ∷ []) ≡ none)
    × (find_crlf 13 10 small 10 ≡ some (some 10))
    × (find_eol small 10 ≡ some (some 11))
    × (peek_int 2 small ≡ some 3338)
unfolding operations
runs = (refl, refl, refl, refl, refl, refl, refl)

make_space-HasSpace_example : (c : Buffer) × (make_space small 3 ≡ some c) × HasSpace small 3 c
make_space-HasSpace_example = make_space-HasSpace small 3 small-IsValid (omega arith) (omega arith)

appends_three : Refines (perform small (appends (1 ∷ 2 ∷ 3 ∷ []))) ([], 13 ∷ 10 ∷ 1 ∷ 2 ∷ 3 ∷ [])
appends_three = perform-Refines small (appends (1 ∷ 2 ∷ 3 ∷ [])) small-IsValid (omega arith)

perform-Refines_example : Refines (perform small (takes 1)) (13 ∷ [], 10 ∷ [])
perform-Refines_example = perform-Refines small (takes 1) small-IsValid (omega arith)

read_int-big_endian_example :
    (c : Buffer) × (read_int 1 digits ≡ some (1, c)) × IsValid c × (contents c ≡ 2 ∷ [])
unfolding operations
read_int-big_endian_example =
    read_int-big_endian 1 1 digits (2 ∷ []) (omega arith) (omega arith) refl

read_int-append_int_example :
    (c d : Buffer) × (append_int 8 drained 513 ≡ some c)
    × (read_int 8 c ≡ some (513, d))
    × IsValid d
    × (contents d ≡ [])
read_int-append_int_example =
    read_int-append_int 8 513 drained (omega arith) refl (omega arith) (omega arith)

find_crlf-IsFirst_example :
    (r : Option ℕ) × (find_crlf 13 10 small 10 ≡ some (Option.map (λ i. 10 + i) r))
    × IsFirst (PairAt 13 10 (13 ∷ 10 ∷ [])) r
find_crlf-IsFirst_example = find_crlf-IsFirst 13 10 small 10 (omega arith) (omega arith)

find_eol-IsFirst_example :
    (r : Option ℕ) × (find_eol small 10 ≡ some (Option.map (λ i. 10 + i) r))
    × IsFirst (ByteAt 10 (13 ∷ 10 ∷ [])) r
find_eol-IsFirst_example = find_eol-IsFirst small 10 (omega arith) (omega arith)
