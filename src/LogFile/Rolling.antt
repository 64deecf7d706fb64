-- ===== src/LogFile/Rolling.antt =====
-- What base/LogFile.cc does with a line, and when it begins a file.
use libanet.Common.{
  ℕ, suc, ◌+◌, ◌*◌, ◌/◌, ◌-◌, ◌≤◌, ◌<◌, ◌≡◌, ◌⊎◌, inl, inr, refl, sym, ap, ◌∙◌, some, List, [], ◌∷◌,
  ◌++◌, ltb, leb, ◌==◌, not, Bool-cases, arith,
}
use mathlib.Core.List.{append-nil, append_assoc}
use libanet.FileUtil.{Answer, Written}
use libanet.FileUtil.Append.{IsFwrite, Brings, append-Brings}
use libanet.LogFile.{
  LogFile, roll_per_seconds, roll_file, check_period, after_append, append_unlocked,
}

abbrev joined : List (List ℕ) → List ℕ
joined [] = []
joined (x ∷ xs) = x ++ joined xs

-- The contents of all files, in the order in which they were begun.
abbrev pub all_contents : LogFile → List ℕ
all_contents l = joined l.rolled ++ l.file.contents

joined-append : (xs : List (List ℕ)) (x : List ℕ) → joined (xs ++ (x ∷ [])) ≡ joined xs ++ x
joined-append [] x = append-nil x
joined-append (y ∷ xs) x =
    ap (λ z. y ++ z) (joined-append xs x) ∙ sym (append_assoc y (joined xs) x)

-- The period is that of the last roll, and the lines are counted up to check_every_n.
pub record Inv (l : LogFile) : Type 0 where
  pub period : l.start_of_period ≡ l.last_roll / roll_per_seconds * roll_per_seconds
  pub counted : l.count < l.check_every_n

-- What is kept when a file may be rolled at a time.
record Rolls (l : LogFile) (now : ℕ) (l' : LogFile) : Type 0 where
  inv : Inv l'
  same_size : l'.roll_size ≡ l.roll_size
  same : all_contents l' ≡ all_contents l
  small : (l.file.written_bytes ≤ l.roll_size) → l'.file.written_bytes ≤ l'.roll_size

roll_file-rolled : (l : LogFile) (now : ℕ) → Inv l → Rolls l now (roll_file l now)
unfolding roll_file
roll_file-rolled l now v = elim (Bool-cases (ltb l.last_roll now)) [
  | inl later ↦ rw later (record {
    inv = record { period = refl; counted = v.counted };
    same_size = refl;
    same =
        append-nil (joined (l.rolled ++ (l.file.contents ∷ [])))
        ∙ joined-append l.rolled l.file.contents;
    small = λ h. omega arith;
  })
  | inr early ↦ rw early (record { inv = v; same_size = refl; same = refl; small = λ h. h })
]

-- When the file is rolled, unless it was begun in the same second.
roll_file-small :
    (l : LogFile) (now : ℕ)
    → ((roll_file l now).file.written_bytes ≤ (roll_file l now).roll_size)
      ⊎ (now ≤ (roll_file l now).last_roll)
unfolding roll_file
roll_file-small l now = elim (Bool-cases (ltb l.last_roll now)) [
  | inl later ↦ rw later (inl (omega arith))
  | inr early ↦ rw early (inr (ground arith))
]

check_period-rolled :
    (l : LogFile) (now roll_now : ℕ) → Inv l → Rolls l roll_now (check_period l now roll_now)
unfolding check_period
check_period-rolled l now roll_now v =
    elim (Bool-cases (not (now / roll_per_seconds * roll_per_seconds == l.start_of_period))) [
      | inl next ↦ rw next (roll_file-rolled l roll_now v)
      | inr current ↦ elim (Bool-cases (ltb l.flush_interval (now - l.last_flush))) [
        | inl due ↦
            rw (current, due)
              (record {
                inv = record { period = v.period; counted = v.counted };
                same_size = refl;
                same = refl;
                small = λ h. h;
              })
        | inr early ↦
            rw (current, early) (record { inv = v; same_size = refl; same = refl; small = λ h. h })
      ]
    ]

-- What `append_unlocked` leaves: the bytes are behind those of all files before, and the open file is
-- within its size, or was begun no earlier than the clock says.
pub record Appended (l : LogFile) (bytes : List ℕ) (now : ℕ) (l' : LogFile) : Type 0 where
  pub inv : Inv l'
  pub contents : all_contents l' ≡ all_contents l ++ bytes
  pub small : (l'.file.written_bytes ≤ l'.roll_size) ⊎ (now ≤ l'.last_roll)

after_append-Appended :
    (l : LogFile) (bytes : List ℕ) (n now roll_now : ℕ)
    → Inv l
    → Appended l bytes roll_now (
        after_append
          (record l { file = record { contents = l.file.contents ++ bytes; written_bytes = n } })
          now
          roll_now)
unfolding after_append
after_append-Appended l bytes n now roll_now v =
    let l1 : LogFile = record l {
      file = record { contents = l.file.contents ++ bytes; written_bytes = n };
    } in
    let v1 : Inv l1 = record { period = v.period; counted = v.counted } in
    let behind : all_contents l1 ≡ all_contents l ++ bytes =
      sym (append_assoc (joined l.rolled) l.file.contents bytes) in
    elim (Bool-cases (ltb l.roll_size n)) [
      | inl big ↦
          let r = roll_file-rolled l1 roll_now v1 in
          rw big (record {
            inv = r.inv;
            contents = r.same ∙ behind;
            small = roll_file-small l1 roll_now;
          })
      | inr little ↦ elim (Bool-cases (leb l.check_every_n (suc l.count))) [
        | inl check ↦
            let l2 : LogFile = record l1 { count = 0 } in
            let r =
              check_period-rolled l2 now roll_now
                (record { period = v.period; counted = omega (arith, v.counted) }) in
            rw (little, check)
              (record {
                inv = r.inv;
                contents = r.same ∙ behind;
                small = inl (r.small (ground arith));
              })
        | inr go ↦
            rw (little, go)
              (record {
                inv = record { period = v.period; counted = ground arith };
                contents = behind;
                small = inl (ground arith);
              })
      ]
    ]

-- If fwrite writes at most what it is asked for, and less only with an error or if it has written
-- something, and the period is that of the last roll and fewer lines than check_every_n are counted, then
-- append_unlocked ends and the same holds afterwards: the bytes of the line that fwrite took stand behind
-- those of all files before, whether or not a file is begun, and the open file does not count more than
-- roll_size bytes, or was begun no earlier than the clock says.
pub append_unlocked-Appended :
    (fwrite : ℕ → List ℕ → Answer) (l : LogFile) (call : ℕ) (line : List ℕ) (now roll_now : ℕ)
    → IsFwrite fwrite
    → Inv l
    → (w : Written) × (l' : LogFile) × (append_unlocked fwrite l call line now roll_now ≡ some l')
      × Brings fwrite line w
      × Appended l w.bytes roll_now l'
unfolding append_unlocked
append_unlocked-Appended fwrite l call line now roll_now f v =
    let a = append-Brings fwrite l.file call line f in
    (
      a.0,
      after_append
          (record l {
            file = record {
              contents = l.file.contents ++ a.0.bytes;
              written_bytes = l.file.written_bytes + a.0.count;
            };
          })
          now roll_now,
      rw a.1 refl,
      a.2,
      after_append-Appended l a.0.bytes (l.file.written_bytes + a.0.count) now roll_now v,
    )
