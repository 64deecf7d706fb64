-- ===== src/Buffer/Search.antt =====
-- net/Buffer.h: findCRLF and findEOL find the first match.
use libanet.Common.{
  ℕ, zero, suc, ◌+◌, ◌-◌, ◌≤◌, ◌<◌, ◌≡◌, inl, inr, ◌&&◌, Option, none, some, List, [], ◌∷◌, arith,
  ◌==◌, le→leb, get_elem?, Bool-cases,
}
use mathlib.Core.Option
use libanet.Common.Words.{sub_size-eq}
use libanet.Common.Slices.{slice}
use libanet.Buffer.{Buffer, search_pair, search_byte, find_crlf, find_eol}

-- The bytes `c` and `l` stand at `k` and behind it.
abbrev pub PairAt : ℕ → ℕ → List ℕ → ℕ → Type 0
PairAt c l xs k = (get_elem? xs k ≡ some c) × (get_elem? xs (suc k) ≡ some l)

abbrev pub ByteAt : ℕ → List ℕ → ℕ → Type 0
ByteAt c xs k = get_elem? xs k ≡ some c

-- The answer of a search: the first place where `P` holds, or none if it holds nowhere.
abbrev pub IsFirst : (ℕ → Type 0) → Option ℕ → Type 0
IsFirst P none = (j : ℕ) → ¬ P j
IsFirst P (some k) = P k × ((j : ℕ) → j < k → ¬ P j)

IsFirst-suc :
    (P : ℕ → Type 0) (r : Option ℕ)
    → ¬ P 0
    → IsFirst (λ k. P (suc k)) r
    → IsFirst P (Option.map suc r)
IsFirst-suc P none no_start h = nowhere
  where
    nowhere : (j : ℕ) → ¬ P j
    nowhere zero p = no_start p
    nowhere (suc j) p = h j p
IsFirst-suc P (some k) no_start h = (h.0, later)
  where
    later : (j : ℕ) → j < suc k → ¬ P j
    later zero lt p = no_start p
    later (suc j) lt p = h.1 j (omega arith) p

search_pair-IsFirst : (c l : ℕ) (xs : List ℕ) → IsFirst (PairAt c l xs) (search_pair c l xs)
unfolding search_pair
search_pair-IsFirst c l [] = λ j p. cc (p.0)
search_pair-IsFirst c l (x ∷ []) = too_short
  where
    too_short : (j : ℕ) → ¬ PairAt c l (x ∷ []) j
    too_short zero p = cc (p.1)
    too_short (suc j) p = cc (p.0)
search_pair-IsFirst c l (x ∷ y ∷ rest) = elim (Bool-cases ((x == c) && (y == l))) [
  | inl hit ↦ rw hit ((ground arith, ground arith), λ j lt p. elim lt [ ])
  | inr miss ↦ rw miss (
      IsFirst-suc (PairAt c l (x ∷ y ∷ rest)) _ (λ p. ground arith)
        (search_pair-IsFirst c l (y ∷ rest)))
]

search_byte-IsFirst : (c : ℕ) (xs : List ℕ) → IsFirst (ByteAt c xs) (search_byte c xs)
unfolding search_byte
search_byte-IsFirst c [] = λ j p. cc
search_byte-IsFirst c (x ∷ rest) = elim (Bool-cases (x == c)) [
  | inl hit ↦ rw hit (ground arith, λ j lt p. elim lt [ ])
  | inr miss ↦
      rw miss (IsFirst-suc (ByteAt c (x ∷ rest)) _ (λ p. ground arith) (search_byte-IsFirst c rest))
]

-- Between `start` and the write index, `find_crlf` finds the first pair, or that there is none.
pub find_crlf-IsFirst :
    (c l : ℕ) (b : Buffer) (start : ℕ)
    → b.reader_index ≤ start
    → start ≤ b.writer_index
    → (r : Option ℕ) × (find_crlf c l b start ≡ some (Option.map (λ i. start + i) r))
      × IsFirst (PairAt c l (slice start (b.writer_index - start) b.buffer)) r
unfolding find_crlf
find_crlf-IsFirst c l b start low high = (
  search_pair c l (slice start (b.writer_index - start) b.buffer),
  rw (
    le→leb b.reader_index start low,
    le→leb start b.writer_index high,
    sub_size-eq b.writer_index start high,
  ),
  search_pair-IsFirst c l _,
)

-- Likewise `find_eol` for the first newline.
pub find_eol-IsFirst :
    (b : Buffer) (start : ℕ)
    → b.reader_index ≤ start
    → start ≤ b.writer_index
    → (r : Option ℕ) × (find_eol b start ≡ some (Option.map (λ i. start + i) r))
      × IsFirst (ByteAt 10 (slice start (b.writer_index - start) b.buffer)) r
unfolding find_eol
find_eol-IsFirst b start low high = (
  search_byte 10 (slice start (b.writer_index - start) b.buffer),
  rw (
    le→leb b.reader_index start low,
    le→leb start b.writer_index high,
    sub_size-eq b.writer_index start high,
  ),
  search_byte-IsFirst 10 _,
)
