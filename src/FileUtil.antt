-- ===== src/FileUtil.antt =====
-- base/FileUtil.h and base/FileUtil.cc: FileUtil::AppendFile, which is the bytes that are in the file
-- and how many it says that it wrote. What fwrite does in a call is a parameter.
pub mod Append
mod Tests
use libanet.Common.{
  ℕ, zero, suc, ◌+◌, Bool, Option, none, some, List, [], ◌∷◌, ◌++◌, length, take, drop, ◌==◌,
  if◌then◌else◌,
}
use libanet.Common.Options.{◌>>=◌}

pub record AppendFile : Type 0 where
  pub contents : List ℕ
  pub written_bytes : ℕ

-- What fwrite returns, and what ferror says afterwards.
pub record Answer : Type 0 where
  pub written : ℕ
  pub has_error : Bool

-- What a call of `append` brings into the file, and what it counts.
pub record Written : Type 0 where
  pub bytes : List ℕ
  pub count : ℕ

abbrev pub before : List ℕ → ℕ → Written → Written
before bytes n w = record { bytes = bytes ++ w.bytes; count = n + w.count }

-- `fwrite` is asked for the time, counted in calls, and the bytes.
module _ (fwrite : ℕ → List ℕ → Answer) where
  -- The loop of `append`: the bytes that remain, and `none` if the fuel runs out.
  unfoldable pub append_loop : ℕ → ℕ → List ℕ → Option Written
  append_loop zero call [] = some (record { bytes = []; count = 0 })
  append_loop zero call (b ∷ bytes) = none
  append_loop (suc fuel) call [] = some (record { bytes = []; count = 0 })
  append_loop (suc fuel) call (b ∷ bytes) =
      let remain = b ∷ bytes in
      let a = fwrite call remain in
      let rest = append_loop fuel (suc call) (drop a.written remain) in
      if a.written == length remain
      then some (record { bytes = remain; count = length remain })
      else if a.has_error
      then some (record { bytes = take a.written remain; count = 0 })
      else (do w ← rest; some (before (take a.written remain) a.written w))

  -- A byte at least is written in every turn without an error.
  unfoldable pub append : AppendFile → ℕ → List ℕ → Option AppendFile
  unfolding append_loop
  append f call bytes = do
    w ← append_loop (length bytes) call bytes
    some (record { contents = f.contents ++ w.bytes; written_bytes = f.written_bytes + w.count })
