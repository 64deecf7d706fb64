-- ===== src/Buffer/Space.antt =====
-- net/Buffer.h: the invariant of a buffer, its abstract value, and the growth of its space.
use libanet.Common.{
  ℕ, ◌+◌, ◌-◌, ◌≤◌, ◌<◌, ◌≡◌, refl, ◌∙◌, inl, inr, some, List, ◌++◌, length, replicate,
  length-append, length-replicate, ltb, true, false, arith, if◌then◌else◌, Bool-cases, lt→ltb,
  le→leb,
}
use libanet.Common.Words.{max_size, add_size, add_size-eq, sub_size-eq}
use libanet.Common.Slices.{
  copy_to, slice, length-copy_to, length-slice, slice-copy_to, slice-append_left, take-length,
}
use libanet.Buffer.{
  Buffer, cheap_prepend, readable_bytes, writable_bytes, prependable_bytes, resize, make_space,
  ensure_writable_bytes,
}

pub record IsValid (b : Buffer) : Type 0 where
  pub ordered : b.reader_index ≤ b.writer_index
  pub fits : b.writer_index ≤ length b.buffer
  pub roomy : cheap_prepend ≤ length b.buffer
  pub bounded : length b.buffer ≤ max_size

-- The bytes that a reader of the buffer still gets.
abbrev pub contents : Buffer → List ℕ
contents b = slice b.reader_index (b.writer_index - b.reader_index) b.buffer

pub readable_bytes_lem :
    (b : Buffer) → IsValid b → readable_bytes b ≡ b.writer_index - b.reader_index
readable_bytes_lem b v = sub_size-eq b.writer_index b.reader_index v.ordered

pub writable_bytes_lem :
    (b : Buffer) → IsValid b → writable_bytes b ≡ length b.buffer - b.writer_index
writable_bytes_lem b v = sub_size-eq (length b.buffer) b.writer_index v.fits

pub length-contents :
    (b : Buffer) → IsValid b → length (contents b) ≡ b.writer_index - b.reader_index
length-contents b v = length-slice _ _ b.buffer (omega arith)

-- The buffer `c` holds what `b` held, and has room for `len` more bytes.
pub record HasSpace (b : Buffer) (len : ℕ) (c : Buffer) : Type 0 where
  pub valid : IsValid c
  pub same : contents c ≡ contents b
  pub room : c.writer_index + len ≤ length c.buffer
  pub filled : c.writer_index ≤ b.writer_index + cheap_prepend
  pub low : cheap_prepend ≤ b.writer_index → cheap_prepend ≤ c.writer_index

resize_grows :
    (xs : List ℕ) (n : ℕ)
    → length xs ≤ n
    → n ≤ max_size
    → resize xs n ≡ some (xs ++ replicate (n - length xs) 0)
unfolding resize
resize_grows xs n h k = rw (take-length n xs h) (ground arith)

-- When the vector has to grow.
make_space_resize :
    (b : Buffer) (len : ℕ)
    → IsValid b
    → length b.buffer ≤ b.writer_index + len
    → b.writer_index + len ≤ max_size
    → HasSpace b len
        (record b { buffer = b.buffer ++ replicate (b.writer_index + len - length b.buffer) 0 })
make_space_resize b len v h k = record {
  valid = omega (arith, size);
  same = slice-append_left b.buffer _ _ _ (omega arith);
  room = omega (arith, size);
  filled = omega arith;
  low = λ l. omega arith;
}
  where
    size :
        length (b.buffer ++ replicate (b.writer_index + len - length b.buffer) 0)
        ≡ b.writer_index + len
    size = omega (
      arith,
      length-append b.buffer (replicate (b.writer_index + len - length b.buffer) 0),
      length-replicate {A = ℕ} (b.writer_index + len - length b.buffer) 0,
    )

abbrev moved : Buffer → Buffer
moved b = record {
  buffer = copy_to b.buffer cheap_prepend (contents b);
  reader_index = cheap_prepend;
  writer_index = cheap_prepend + (b.writer_index - b.reader_index);
}

-- When the contents move to the front.
make_space_move :
    (b : Buffer) (len : ℕ)
    → IsValid b
    → len + cheap_prepend ≤ length b.buffer - b.writer_index + b.reader_index
    → HasSpace b len (moved b)
make_space_move b len v h = record {
  valid = omega (arith, size, length-contents b v);
  same =
      slice-copy_to b.buffer cheap_prepend _ (contents b) (omega (arith, length-contents b v))
        (omega (arith, length-contents b v));
  room = omega (arith, size, length-contents b v);
  filled = omega arith;
  low = λ l. omega arith;
}
  where
    size : length (copy_to b.buffer cheap_prepend (contents b)) ≡ length b.buffer
    size = length-copy_to b.buffer cheap_prepend (contents b)

-- The test of `make_space` compares the space at both ends with what is asked for.
make_space_test :
    (b : Buffer) (len : ℕ)
    → IsValid b
    → len ≤ max_size
    → ltb (add_size (writable_bytes b) (prependable_bytes b)) (add_size len cheap_prepend)
      ≡ ltb (length b.buffer - b.writer_index + b.reader_index) (len + cheap_prepend)
make_space_test b len v h = rw (
  writable_bytes_lem b v,
  add_size-eq (length b.buffer - b.writer_index) b.reader_index (omega arith),
  add_size-eq len cheap_prepend (omega arith),
)

make_space_moves :
    (b : Buffer) (len : ℕ)
    → IsValid b
    → cheap_prepend < b.reader_index
    → ltb (add_size (writable_bytes b) (prependable_bytes b)) (add_size len cheap_prepend) ≡ false
    → make_space b len ≡ some (moved b)
unfolding make_space
make_space_moves b len v front moves = rw (
  moves,
  lt→ltb cheap_prepend b.reader_index front,
  readable_bytes_lem b v,
  add_size-eq cheap_prepend (b.writer_index - b.reader_index) (omega arith),
)

make_space_grows :
    (b : Buffer) (len : ℕ)
    → length b.buffer ≤ b.writer_index + len
    → b.writer_index + len ≤ max_size
    → ltb (add_size (writable_bytes b) (prependable_bytes b)) (add_size len cheap_prepend) ≡ true
    → make_space b len
      ≡ some
          (record b { buffer = b.buffer ++ replicate (b.writer_index + len - length b.buffer) 0 })
unfolding make_space
make_space_grows b len full h grows = rw (
  grows,
  add_size-eq b.writer_index len (omega arith),
  resize_grows b.buffer (b.writer_index + len) full h,
)

-- A full buffer that may still grow gets its space, and the asserts on the way hold.
pub make_space-HasSpace :
    (b : Buffer) (len : ℕ)
    → IsValid b
    → length b.buffer < b.writer_index + len
    → b.writer_index + len ≤ max_size
    → (c : Buffer) × (make_space b len ≡ some c) × HasSpace b len c
make_space-HasSpace b len v full h =
    elim (Bool-cases
      (ltb (length b.buffer - b.writer_index + b.reader_index) (len + cheap_prepend))) [
        | inl grows ↦ (
          _,
          make_space_grows b len (omega arith) h (make_space_test b len v (omega arith) ∙ grows),
          make_space_resize b len v (omega arith) h,
        )
        | inr moves ↦
            let gap : len + cheap_prepend ≤ length b.buffer - b.writer_index + b.reader_index =
              ground arith in
            (
              moved b,
              make_space_moves b len v (omega arith)
                  (make_space_test b len v (omega arith) ∙ moves),
              make_space_move b len v gap,
            )
      ]

unchanged :
    (b : Buffer) (len : ℕ) → IsValid b → b.writer_index + len ≤ length b.buffer → HasSpace b len b
unchanged b len v h = record {
  valid = v;
  same = refl;
  room = h;
  filled = omega arith;
  low = λ l. l;
}

ensure_writable_bytes_enough :
    (b c : Buffer) (len : ℕ)
    → HasSpace b len c
    → (if ltb (writable_bytes b) len then make_space b len else some b) ≡ some c
    → ensure_writable_bytes b len ≡ some c
unfolding ensure_writable_bytes
ensure_writable_bytes_enough b c len s e = rw (
  e,
  writable_bytes_lem c s.valid,
  le→leb len (length c.buffer - c.writer_index) (let r = s.room in omega arith),
)

-- `ensure_writable_bytes` gives the space that is asked for, keeps the contents, and never aborts
-- while the vector can grow.
pub ensure_writable_bytes-HasSpace :
    (b : Buffer) (len : ℕ)
    → IsValid b
    → b.writer_index + len ≤ max_size
    → (c : Buffer) × (ensure_writable_bytes b len ≡ some c) × HasSpace b len c
ensure_writable_bytes-HasSpace b len v h = elim (Bool-cases (ltb (writable_bytes b) len)) [
  | inl short ↦
      let (c, e, s) = make_space-HasSpace b len v (ground (arith, writable_bytes_lem b v)) h in
      (c, ensure_writable_bytes_enough b c len s (rw short e), s)
  | inr ample ↦
      let s = unchanged b len v (ground (arith, writable_bytes_lem b v)) in
      (b, ensure_writable_bytes_enough b b len s (rw ample refl), s)
]
