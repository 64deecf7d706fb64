-- ===== src/FileUtil/Tests.antt =====
-- A file that takes two bytes a call, and the theorem on it.
use libanet.Common.{
  ℕ, ◌+◌, ◌≤◌, ◌<◌, ◌≡◌, ◌⊎◌, inl, inr, refl, true, false, some, List, [], ◌∷◌, ◌++◌, length, arith,
}
use libanet.FileUtil.{AppendFile, Answer, Written, append, append_loop}
use libanet.FileUtil.Append.{IsFwrite, Brings, append-Brings}

abbrev at_most_two : List ℕ → ℕ
at_most_two [] = 0
at_most_two (x ∷ []) = 1
at_most_two (x ∷ y ∷ xs) = 2

abbrev fwrite : ℕ → List ℕ → Answer
fwrite call bytes = record { written = at_most_two bytes; has_error = false }

abbrev empty_file : AppendFile
empty_file = record { contents = []; written_bytes = 0 }

three_bytes :
    append fwrite empty_file 0 (1 ∷ 2 ∷ 3 ∷ [])
    ≡ some (record { contents = 1 ∷ 2 ∷ 3 ∷ []; written_bytes = 3 })
unfolding append append_loop
three_bytes = refl

fwrite-IsFwrite : IsFwrite fwrite
fwrite-IsFwrite = record {
  at_most = λ call bytes. bounded bytes;
  progress = λ call bytes. moves bytes;
}
  where
    bounded : (bytes : List ℕ) → at_most_two bytes ≤ length bytes
    bounded [] = omega arith
    bounded (x ∷ []) = omega arith
    bounded (x ∷ y ∷ xs) = omega arith

    moves : (bytes : List ℕ) → (false ≡ true) ⊎ (0 < at_most_two bytes) ⊎ (length bytes ≡ 0)
    moves [] = inr (inr refl)
    moves (x ∷ []) = inr (inl (omega arith))
    moves (x ∷ y ∷ xs) = inr (inl (omega arith))

append-Brings_example :
    (w : Written) × (append fwrite empty_file 0 (1 ∷ 2 ∷ 3 ∷ [])
      ≡ some (record {
        contents = empty_file.contents ++ w.bytes;
        written_bytes = empty_file.written_bytes + w.count;
      }))
    × Brings fwrite (1 ∷ 2 ∷ 3 ∷ []) w
append-Brings_example = append-Brings fwrite empty_file 0 (1 ∷ 2 ∷ 3 ∷ []) fwrite-IsFwrite
