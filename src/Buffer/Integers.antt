-- ===== src/Buffer/Integers.antt =====
-- net/Buffer.h: integers in network byte order, written and read back.
use native.Mathlib.Nat.{pow-suc, pow-zero}
use mathlib.Core.List.{append-nil}
use libanet.Common.{
  ℕ, zero, suc, ◌+◌, ◌-◌, ◌*◌, ◌/◌, ◌%◌, ◌^◌, ◌≤◌, ◌<◌, ◌≡◌, refl, sym, ap, ◌∙◌, some, List, [],
  ◌∷◌, ◌++◌, length, take, drop, arith, le→leb, length-append, take-append, drop-append,
}
use libanet.Common.Words.{max_size}
use libanet.Common.Slices.{take-slice}
use libanet.Buffer.{
  Buffer, big_endian, from_big_endian, append_int, peek_int, read_int, prepend_int, bytes_at,
}
use libanet.Buffer.Space.{IsValid, contents, length-contents, readable_bytes_lem}
use libanet.Buffer.Bytes.{append-Holds, retrieve-Holds, prepend-Holds}

pub length-big_endian : (n x : ℕ) → length (big_endian n x) ≡ n
unfolding big_endian
length-big_endian zero x = refl
length-big_endian (suc n) x =
    omega (
      arith,
      length-append (big_endian n (x / 256)) ((x % 256) ∷ []),
      length-big_endian n (x / 256),
    )

from_big_endian-append :
    (acc : ℕ) (xs ys : List ℕ)
    → from_big_endian acc (xs ++ ys) ≡ from_big_endian (from_big_endian acc xs) ys
unfolding from_big_endian
from_big_endian-append acc [] ys = refl
from_big_endian-append acc (x ∷ xs) ys = from_big_endian-append (acc * 256 + x) xs ys

-- The bytes of a value that fits into them stand for it.
pub from_big_endian-big_endian : (n x : ℕ) → x < 256 ^ n → from_big_endian 0 (big_endian n x) ≡ x
unfolding big_endian from_big_endian
from_big_endian-big_endian zero x h = omega (arith, pow-zero 256)
from_big_endian-big_endian (suc n) x h =
    from_big_endian-append 0 (big_endian n (x / 256)) ((x % 256) ∷ [])
    ∙ omega (arith, from_big_endian-big_endian n (x / 256) (omega (arith, pow-suc 256 n)))

-- Bytes that start with those of `x` are read as `x`, and the rest is left.
pub read_int-big_endian :
    (n x : ℕ) (b : Buffer) (rest : List ℕ)
    → IsValid b
    → x < 256 ^ n
    → contents b ≡ big_endian n x ++ rest
    → (c : Buffer) × (read_int n b ≡ some (x, c)) × IsValid c × (contents c ≡ rest)
unfolding read_int peek_int
read_int-big_endian n x b rest v h e =
    let (c, got, w, left) = retrieve-Holds b n v long in
    (
      c,
      rw (
        readable_bytes_lem b v,
        le→leb n (b.writer_index - b.reader_index) long,
        front,
        from_big_endian-big_endian n x h,
        got,
      ),
      w,
      left ∙ ap (drop n) e ∙ drop-append (big_endian n x) rest n (length-big_endian n x),
    )
  where
    long : n ≤ b.writer_index - b.reader_index
    long = omega (
      arith,
      length-contents b v,
      ap length e,
      length-append (big_endian n x) rest,
      length-big_endian n x,
    )

    front : bytes_at b b.reader_index n ≡ big_endian n x
    front =
        sym (take-slice b.buffer b.reader_index n _ long)
        ∙ ap (take n) e
        ∙ take-append (big_endian n x) rest n (length-big_endian n x)

-- An integer prepended to any contents is read back, and leaves them.
pub read_int-prepend_int :
    (n x : ℕ) (b : Buffer)
    → IsValid b
    → x < 256 ^ n
    → n ≤ b.reader_index
    → (c d : Buffer) × (prepend_int n b x ≡ some c)
      × (read_int n c ≡ some (x, d))
      × IsValid d
      × (contents d ≡ contents b)
unfolding prepend_int
read_int-prepend_int n x b v h fits =
    let (c, e, w, same) =
      prepend-Holds b (big_endian n x) v (omega (arith, length-big_endian n x)) in
    let (d, got, u, left) = read_int-big_endian n x c (contents b) w h same in
    (c, d, e, got, u, left)

-- An integer appended to an empty buffer is read back, and leaves it empty.
pub read_int-append_int :
    (n x : ℕ) (b : Buffer)
    → IsValid b
    → contents b ≡ []
    → x < 256 ^ n
    → b.writer_index + n ≤ max_size
    → (c d : Buffer) × (append_int n b x ≡ some c)
      × (read_int n c ≡ some (x, d))
      × IsValid d
      × (contents d ≡ [])
unfolding append_int
read_int-append_int n x b v empty h fits =
    let (c, e, w, same) =
      append-Holds b (big_endian n x) v (omega (arith, length-big_endian n x)) in
    let (d, got, u, left) =
      read_int-big_endian n x c [] w h
        (same ∙ ap (λ xs. xs ++ big_endian n x) empty ∙ sym (append-nil (big_endian n x))) in
    (c, d, e, got, u, left)
