-- ===== src/LogFile.antt =====
-- base/LogFile.h and base/LogFile.cc: the file that is written, and when the next one is begun. A time
-- is in seconds, and what the clock says is an argument of every call that reads it. Names of files and
-- the choice of a mutex are not modelled.
mod Rolling
mod Tests
use libanet.Common.{
  ℕ, suc, ◌*◌, ◌/◌, ◌-◌, Bool, true, false, Option, some, List, [], ◌∷◌, ◌++◌, ltb, leb, ◌==◌, not,
  if◌then◌else◌,
}
use libanet.Common.Options.{◌>>=◌}
use libanet.FileUtil.{AppendFile, Answer, append}

-- `rolled` has the contents of the files before the one that is open.
pub record LogFile : Type 0 where
  pub roll_size : ℕ
  pub flush_interval : ℕ
  pub check_every_n : ℕ
  pub count : ℕ
  pub start_of_period : ℕ
  pub last_roll : ℕ
  pub last_flush : ℕ
  pub file : AppendFile
  pub rolled : List (List ℕ)

abbrev pub roll_per_seconds : ℕ
roll_per_seconds = 86400

abbrev pub empty_file : AppendFile
empty_file = record { contents = []; written_bytes = 0 }

-- rollFile at a time
unfoldable pub roll_file : LogFile → ℕ → LogFile
roll_file l now =
    if ltb l.last_roll now
    then record l {
      last_roll = now;
      last_flush = now;
      start_of_period = now / roll_per_seconds * roll_per_seconds;
      file = empty_file;
      rolled = l.rolled ++ (l.file.contents ∷ []);
    }
    else l

-- What stands in append_unlocked for every check_every_n-th line: the clock is read, and once more if
-- the file is rolled.
unfoldable pub check_period : LogFile → ℕ → ℕ → LogFile
unfolding roll_file
check_period l now roll_now =
    if not (now / roll_per_seconds * roll_per_seconds == l.start_of_period)
    then roll_file l roll_now
    else if ltb l.flush_interval (now - l.last_flush)
    then record l { last_flush = now }
    else l

-- append_unlocked from the call of writtenBytes
unfoldable pub after_append : LogFile → ℕ → ℕ → LogFile
unfolding roll_file check_period
after_append l now roll_now =
    if ltb l.roll_size l.file.written_bytes
    then roll_file l roll_now
    else if leb l.check_every_n (suc l.count)
    then check_period (record l { count = 0 }) now roll_now
    else record l { count = suc l.count }

-- append_unlocked, where `call` counts the calls of fwrite
unfoldable pub append_unlocked :
    (ℕ → List ℕ → Answer) → LogFile → ℕ → List ℕ → ℕ → ℕ → Option LogFile
unfolding after_append
append_unlocked fwrite l call line now roll_now = do
  f ← append fwrite l.file call line
  some (after_append (record l { file = f }) now roll_now)
