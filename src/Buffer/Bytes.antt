-- ===== src/Buffer/Bytes.antt =====
-- net/Buffer.h: what the operations do to the contents of a buffer.
use libanet.Common.{
  ℕ, ◌%◌, ◌+◌, ◌-◌, ◌*◌, ◌≤◌, ◌<◌, ◌≡◌, refl, sym, ap, ap₂, ◌∙◌, inl, inr, Option, some, List, [],
  ◌++◌, ◌≡⟨◌⟩◌, ◌∎, length, take, drop, ltb, arith, Bool-cases, lt→ltb, ltb→lt, le→leb,
  length-replicate,
}
use libanet.Common.Ints.{int_max}
use libanet.Common.Words.{max_size, size_mod, add_size-eq, sub_size-eq}
use libanet.Common.Slices.{
  copy_to, slice, length-copy_to, slice-copy_to, slice-append, slice-copy_to_before,
  slice-copy_to_after, drop-slice, take-slice,
}
use libanet.Buffer.{
  Buffer, cheap_prepend, initial_size, create, ensure_writable_bytes, has_written, append, retrieve,
  retrieve_all, prepend, retireve_as_string, to_string_piece, shrink,
}
use libanet.Buffer.Space.{
  IsValid, contents, HasSpace, ensure_writable_bytes-HasSpace, readable_bytes_lem, length-contents,
}

-- The answer of an operation: it does not abort, keeps the invariant, and leaves these bytes.
abbrev pub Holds : Option Buffer → List ℕ → Type 0
Holds r bytes = (c : Buffer) × (r ≡ some c) × IsValid c × (contents c ≡ bytes)

pub Holds-of_eq : {r s : Option Buffer} {xs ys : List ℕ} → s ≡ r → xs ≡ ys → Holds r xs → Holds s ys
Holds-of_eq p q (c, e, v, same) = (c, p ∙ e, v, same ∙ q)

-- A fresh buffer is valid and empty.
pub create-IsValid :
    (n : ℕ) → cheap_prepend + n ≤ max_size → IsValid (create n) × (contents (create n) ≡ [])
unfolding create
create-IsValid n h = (omega (arith, length-replicate {A = ℕ} (cheap_prepend + n) 0), refl)

-- Written bytes at the end of the contents.
abbrev extended : Buffer → List ℕ → Buffer
extended b bytes = record b {
  buffer = copy_to b.buffer b.writer_index bytes;
  writer_index = b.writer_index + length bytes;
}

module _ (b : Buffer) (bytes : List ℕ) (v : IsValid b) where
  extended-IsValid : b.writer_index + length bytes ≤ length b.buffer → IsValid (extended b bytes)
  extended-IsValid h = omega (arith, length-copy_to b.buffer b.writer_index bytes)

  extended-contents :
      b.writer_index + length bytes ≤ length b.buffer
      → contents (extended b bytes) ≡ contents b ++ bytes
  extended-contents h =
      contents (extended b bytes)
      ≡⟨ ap (λ n. slice b.reader_index n written) (omega arith) ⟩
        slice b.reader_index (b.writer_index - b.reader_index + length bytes) written
      ≡⟨ slice-append written b.reader_index _ (length bytes) ⟩
        slice b.reader_index (b.writer_index - b.reader_index) written
        ++ slice (b.reader_index + (b.writer_index - b.reader_index)) (length bytes) written
      ≡⟨ ap₂ ◌++◌ (slice-copy_to_before b.buffer _ _ _ bytes (omega arith)) end ⟩
        contents b ++ bytes ∎
    where
      written : List ℕ
      written = copy_to b.buffer b.writer_index bytes

      end :
          slice (b.reader_index + (b.writer_index - b.reader_index)) (length bytes) written ≡ bytes
      end =
          ap (λ i. slice i (length bytes) written) (omega arith)
          ∙ slice-copy_to b.buffer b.writer_index (length bytes) bytes refl h

append_written :
    (b c : Buffer) (bytes : List ℕ)
    → HasSpace b (length bytes) c
    → ensure_writable_bytes b (length bytes) ≡ some c
    → append b bytes ≡ some (extended c bytes)
unfolding append has_written
append_written b c bytes s e = rw (
  e,
  sub_size-eq (length (copy_to c.buffer c.writer_index bytes)) c.writer_index
      (let v = s.valid in omega (arith, size)),
  le→leb (length bytes) (length (copy_to c.buffer c.writer_index bytes) - c.writer_index)
      (let r = s.room in omega (arith, size)),
  add_size-eq c.writer_index (length bytes) (let r = s.room in let v = s.valid in omega arith),
)
  where
    size : length (copy_to c.buffer c.writer_index bytes) ≡ length c.buffer
    size = length-copy_to c.buffer c.writer_index bytes

-- `append` puts the bytes behind the contents, whatever space it has to make.
pub append-Holds :
    (b : Buffer) (bytes : List ℕ)
    → IsValid b
    → b.writer_index + length bytes ≤ max_size
    → Holds (append b bytes) (contents b ++ bytes)
append-Holds b bytes v h =
    let (c, e, s) = ensure_writable_bytes-HasSpace b (length bytes) v h in
    (
      extended c bytes,
      append_written b c bytes s e,
      extended-IsValid c bytes s.valid s.room,
      extended-contents c bytes s.valid s.room ∙ ap (λ xs. xs ++ bytes) s.same,
    )

-- And the write index goes on by the bytes, or a little more than that when the buffer is tidied.
pub append-writer_index :
    (b c : Buffer) (bytes : List ℕ)
    → IsValid b
    → b.writer_index + length bytes ≤ max_size
    → append b bytes ≡ some c
    → cheap_prepend ≤ b.writer_index
    → (c.writer_index ≤ b.writer_index + length bytes + cheap_prepend)
      × (cheap_prepend ≤ c.writer_index)
append-writer_index b c bytes v h e low =
    let (d, ok, s) = ensure_writable_bytes-HasSpace b (length bytes) v h in
    let same : extended d bytes ≡ c = cc (append_written b d bytes s ok) in
    let filled = s.filled in
    let above = s.low low in omega (arith, ap (λ (x : Buffer). x.writer_index) same)

retrieve_all-contents : (b : Buffer) → contents (retrieve_all b) ≡ []
unfolding retrieve_all
retrieve_all-contents b = refl

retrieve_part :
    (b : Buffer) (n : ℕ)
    → IsValid b
    → n < b.writer_index - b.reader_index
    → retrieve b n ≡ some (record b { reader_index = b.reader_index + n })
unfolding retrieve
retrieve_part b n v h = rw (
  readable_bytes_lem b v,
  le→leb n (b.writer_index - b.reader_index) (omega arith),
  lt→ltb n (b.writer_index - b.reader_index) h,
  add_size-eq b.reader_index n (omega arith),
)

retrieve_rest :
    (b : Buffer) (n : ℕ)
    → IsValid b
    → n ≡ b.writer_index - b.reader_index
    → retrieve b n ≡ some (retrieve_all b)
unfolding retrieve
retrieve_rest b n v h = ground (arith, readable_bytes_lem b v)

-- Taking all of the contents leaves nothing, so dropping that many bytes does too.
drop-contents :
    (b : Buffer) (n : ℕ) → b.writer_index - b.reader_index ≤ n → drop n (contents b) ≡ []
drop-contents b n h =
    let none_left : b.writer_index - b.reader_index - n ≡ 0 = omega arith in
    drop-slice b.buffer b.reader_index n _
    ∙ ap (λ k. slice (b.reader_index + n) k b.buffer) none_left

-- `retrieve` takes bytes from the front, and starts afresh when none are left.
pub retrieve-Holds :
    (b : Buffer) (n : ℕ)
    → IsValid b
    → n ≤ b.writer_index - b.reader_index
    → Holds (retrieve b n) (drop n (contents b))
unfolding retrieve_all
retrieve-Holds b n v h = elim (Bool-cases (ltb n (b.writer_index - b.reader_index))) [
  | inl part ↦ (
    record b { reader_index = b.reader_index + n },
    retrieve_part b n v (ltb→lt n _ part),
    ground arith,
    ap (λ k. slice (b.reader_index + n) k b.buffer) (omega arith)
        ∙ sym (drop-slice b.buffer b.reader_index n _),
  )
  | inr rest ↦ (
    retrieve_all b,
    retrieve_rest b n v (ground arith),
    omega arith,
    sym (drop-contents b n (ground arith)),
  )
]

-- `retireve_as_string` returns the front of the contents and takes it away.
pub retireve_as_string-Holds :
    (b : Buffer) (n : ℕ)
    → IsValid b
    → n ≤ b.writer_index - b.reader_index
    → (c : Buffer) × (retireve_as_string b n ≡ some (take n (contents b), c))
      × IsValid c
      × (contents c ≡ drop n (contents b))
unfolding retireve_as_string
retireve_as_string-Holds b n v h =
    let (c, e, w, rest) = retrieve-Holds b n v h in
    (
      c,
      rw (
        readable_bytes_lem b v,
        le→leb n (b.writer_index - b.reader_index) h,
        e,
        take-slice b.buffer b.reader_index n (b.writer_index - b.reader_index) h,
      ),
      w,
      rest,
    )

prepended : Buffer → List ℕ → Buffer
prepended b bytes = record b {
  buffer = copy_to b.buffer (b.reader_index - length bytes) bytes;
  reader_index = b.reader_index - length bytes;
}

prepend_written :
    (b : Buffer) (bytes : List ℕ)
    → length bytes ≤ b.reader_index
    → prepend b bytes ≡ some (prepended b bytes)
unfolding prepend prepended
prepend_written b bytes h =
    rw (le→leb (length bytes) b.reader_index h, sub_size-eq b.reader_index (length bytes) h)

-- `prepend` puts the bytes before the contents if they fit there.
pub prepend-Holds :
    (b : Buffer) (bytes : List ℕ)
    → IsValid b
    → length bytes ≤ b.reader_index
    → Holds (prepend b bytes) (bytes ++ contents b)
unfolding prepended
prepend-Holds b bytes v h = (
  prepended b bytes,
  prepend_written b bytes h,
  omega (arith, length-copy_to b.buffer front bytes),
  (contents (prepended b bytes)
      ≡⟨ ap (λ n. slice front n written) (omega arith) ⟩
        slice front (length bytes + (b.writer_index - b.reader_index)) written
      ≡⟨ slice-append written front (length bytes) _ ⟩
        slice front (length bytes) written
        ++ slice (front + length bytes) (b.writer_index - b.reader_index) written
      ≡⟨ ap₂ ◌++◌ (slice-copy_to b.buffer front _ bytes refl (omega arith)) rest ⟩
        bytes ++ contents b ∎),
)
  where
    front : ℕ
    front = b.reader_index - length bytes

    written : List ℕ
    written = copy_to b.buffer front bytes

    rest : slice (front + length bytes) (b.writer_index - b.reader_index) written ≡ contents b
    rest =
        slice-copy_to_after b.buffer _ front _ bytes (omega arith)
        ∙ ap (λ i. slice i (b.writer_index - b.reader_index) b.buffer) (omega arith)

shrink_steps :
    (b c : Buffer) (reserve : ℕ)
    → IsValid b
    → b.writer_index - b.reader_index + reserve < size_mod
    → b.writer_index - b.reader_index ≤ int_max
    → ensure_writable_bytes (create initial_size) (b.writer_index - b.reader_index + reserve)
      ≡ some c
    → shrink b reserve ≡ append c (contents b)
unfolding shrink to_string_piece
shrink_steps b c reserve v h k e =
    rw
      (
        readable_bytes_lem b v,
        add_size-eq (b.writer_index - b.reader_index) reserve h,
        e,
        low,
        le→leb (b.writer_index - b.reader_index) int_max k,
      )
      refl
  where
    low : (b.writer_index - b.reader_index) % 4294967296 ≡ b.writer_index - b.reader_index
    low = omega (arith, k)

-- `shrink` moves the contents to a fresh vector, if an int holds their number.
pub shrink-Holds :
    (b : Buffer) (reserve : ℕ)
    → IsValid b
    → b.writer_index - b.reader_index + reserve + 2 * cheap_prepend ≤ max_size
    → b.writer_index - b.reader_index ≤ int_max
    → Holds (shrink b reserve) (contents b)
unfolding create
shrink-Holds b reserve v h k =
    let (fresh, empty) = create-IsValid initial_size (omega arith) in
    let (c, e, s) =
      ensure_writable_bytes-HasSpace (create initial_size)
        (b.writer_index - b.reader_index + reserve) fresh (omega arith) in
    let filled = s.filled in
    Holds-of_eq (shrink_steps b c reserve v (omega arith) k e)
      (ap (λ xs. xs ++ contents b) (s.same ∙ empty))
      (append-Holds c (contents b) s.valid (omega (arith, length-contents b v)))

-- `retrieve` leaves the write index, or puts it back to the start.
pub retrieve-writer_index :
    (b c : Buffer) (n : ℕ)
    → IsValid b
    → n ≤ b.writer_index - b.reader_index
    → retrieve b n ≡ some c
    → cheap_prepend ≤ b.writer_index
    → (c.writer_index ≤ b.writer_index) × (cheap_prepend ≤ c.writer_index)
unfolding retrieve retrieve_all
retrieve-writer_index b c n v h e low = ground arith
