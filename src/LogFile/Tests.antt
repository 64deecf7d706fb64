-- ===== src/LogFile/Tests.antt =====
-- A line that fills a file, and the theorem on it.
use libanet.Common.{
  ℕ, ◌≡◌, ◌≤◌, refl, inl, inr, true, false, Option, none, some, List, [], ◌∷◌, ◌++◌, length, arith,
}
use libanet.FileUtil.{Answer, Written, append, append_loop}
use libanet.FileUtil.Append.{IsFwrite, Brings}
use libanet.LogFile.{LogFile, empty_file, roll_file, check_period, after_append, append_unlocked}
use libanet.LogFile.Rolling.{Inv, Appended, append_unlocked-Appended}

-- Everything is written at once.
abbrev fwrite : ℕ → List ℕ → Answer
fwrite call bytes = record { written = length bytes; has_error = false }

fwrite-IsFwrite : IsFwrite fwrite
fwrite-IsFwrite = record {
  at_most = λ call bytes. omega arith;
  progress = λ call bytes. elim (libanet.Common.Bool-cases (libanet.Common.ltb 0 (length bytes))) [
    | inl some_bytes ↦ inr (inl (libanet.Common.ltb→lt 0 (length bytes) some_bytes))
    | inr nothing ↦ inr (inr (ground arith))
  ];
}

-- The file was begun on the third day.
abbrev log : LogFile
log = record {
  roll_size = 2;
  flush_interval = 3;
  check_every_n = 1024;
  count = 0;
  start_of_period = 172800;
  last_roll = 172805;
  last_flush = 172805;
  file = empty_file;
  rolled = [];
}

three_bytes :
    append_unlocked fwrite log 0 (1 ∷ 2 ∷ 3 ∷ []) 172810 172810
    ≡ some (record log { last_roll = 172810; last_flush = 172810; rolled = (1 ∷ 2 ∷ 3 ∷ []) ∷ [] })
unfolding append_unlocked roll_file check_period after_append append append_loop
three_bytes = refl

log-Inv : Inv log
log-Inv = record { period = refl; counted = omega arith }

append_unlocked-Appended_example :
    (w : Written) × (l' : LogFile) × (append_unlocked fwrite log 0 (1 ∷ 2 ∷ 3 ∷ []) 172810 172810
      ≡ some l')
    × Brings fwrite (1 ∷ 2 ∷ 3 ∷ []) w
    × Appended log w.bytes 172810 l'
append_unlocked-Appended_example =
    append_unlocked-Appended fwrite log 0 (1 ∷ 2 ∷ 3 ∷ []) 172810 172810 fwrite-IsFwrite log-Inv
