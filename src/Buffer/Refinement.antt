-- ===== src/Buffer/Refinement.antt =====
-- The operations of net/Buffer.h on a buffer, and what they do to a sequence of bytes.
use libanet.Common.{
  ℕ, ◌+◌, ◌-◌, ◌*◌, ◌≤◌, ◌≡◌, refl, Option, some, List, [], ◌++◌, length, take, drop,
}
use libanet.Common.Options.{◌>>=◌}
use libanet.Common.Ints.{int_max}
use libanet.Common.Words.{max_size}
use libanet.Buffer.{Buffer, cheap_prepend, append, prepend, retrieve, retireve_as_string, shrink}
use libanet.Buffer.Space.{IsValid, contents}
use libanet.Buffer.Bytes.{
  append-Holds, retrieve-Holds, retireve_as_string-Holds, prepend-Holds, shrink-Holds, Holds,
}

pub data Operation : Type 0 where
  appends prepends : List ℕ → Operation
  retrieves takes shrinks : ℕ → Operation

abbrev only : Option Buffer → Option (List ℕ × Buffer)
only r = do b ← r; some ([], b)

-- The bytes that the caller gets, and the buffer afterwards.
unfoldable pub perform : Buffer → Operation → Option (List ℕ × Buffer)
perform b (appends bytes) = only (append b bytes)
perform b (prepends bytes) = only (prepend b bytes)
perform b (retrieves n) = only (retrieve b n)
perform b (takes n) = retireve_as_string b n
perform b (shrinks reserve) = only (shrink b reserve)

-- The same operations on a sequence of bytes.
abbrev pub on_bytes : List ℕ → Operation → List ℕ × List ℕ
on_bytes s (appends bytes) = ([], s ++ bytes)
on_bytes s (prepends bytes) = ([], bytes ++ s)
on_bytes s (retrieves n) = ([], drop n s)
on_bytes s (takes n) = (take n s, drop n s)
on_bytes s (shrinks reserve) = ([], s)

-- When an operation may be called.
abbrev pub Allows : Buffer → Operation → Type 0
Allows b (appends bytes) = b.writer_index + length bytes ≤ max_size
Allows b (prepends bytes) = length bytes ≤ b.reader_index
Allows b (retrieves n) = n ≤ b.writer_index - b.reader_index
Allows b (takes n) = n ≤ b.writer_index - b.reader_index
Allows b (shrinks reserve) =
    (b.writer_index - b.reader_index + reserve + 2 * cheap_prepend ≤ max_size)
    × (b.writer_index - b.reader_index ≤ int_max)

abbrev pub Refines : Option (List ℕ × Buffer) → List ℕ × List ℕ → Type 0
Refines r s = (c : Buffer) × (r ≡ some (s.0, c)) × IsValid c × (contents c ≡ s.1)

only-Refines : {r : Option Buffer} {bytes : List ℕ} → Holds r bytes → Refines (only r) ([], bytes)
only-Refines h = (h.0, rw h.1 refl, h.2, h.3)

-- On a valid buffer, an operation within its bounds (append: the end stays within max_size(); prepend:
-- the bytes fit before the read index; retrieve and retireveAsString: at most the readable bytes;
-- shrink: the sizes stay within max_size(), and the readable bytes are at most 2147483647, which an int
-- holds) does not abort, keeps the invariant, and does to the contents, and gives to the caller, what
-- the operation on a sequence of bytes does.
pub perform-Refines :
    (b : Buffer) (op : Operation)
    → IsValid b
    → Allows b op
    → Refines (perform b op) (on_bytes (contents b) op)
unfolding perform
perform-Refines b (appends bytes) v h = only-Refines (append-Holds b bytes v h)
perform-Refines b (prepends bytes) v h = only-Refines (prepend-Holds b bytes v h)
perform-Refines b (retrieves n) v h = only-Refines (retrieve-Holds b n v h)
perform-Refines b (takes n) v h = retireve_as_string-Holds b n v h
perform-Refines b (shrinks reserve) v h = only-Refines (shrink-Holds b reserve v h.0 h.1)
