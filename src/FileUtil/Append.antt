-- ===== src/FileUtil/Append.antt =====
-- `AppendFile::append` of base/FileUtil.cc.
use libanet.Common.{
  ℕ, zero, suc, ◌+◌, ◌≤◌, ◌<◌, ◌≡◌, ◌⊎◌, inl, inr, refl, sym, ap, ◌∙◌, true, false, some, List, [],
  ◌∷◌, ◌++◌, length, take, drop, ◌==◌, Bool-cases, length-drop, length-take, length-append,
  take-append-drop, arith,
}
use mathlib.Core.Bool.{false≢true}
use mathlib.Core.List.{append-nil, append_assoc}
use libanet.FileUtil.{AppendFile, Answer, Written, before, append_loop, append}

-- What fwrite keeps to: it writes at most what it is asked for, and less only if there is an error or
-- it has written something.
pub record IsFwrite (fwrite : ℕ → List ℕ → Answer) : Type 0 where
  pub at_most : (call : ℕ) (bytes : List ℕ) → (fwrite call bytes).written ≤ length bytes
  pub progress :
      (call : ℕ) (bytes : List ℕ)
      → ((fwrite call bytes).has_error ≡ true)
        ⊎ (0 < (fwrite call bytes).written)
        ⊎ (length bytes ≡ 0)

-- All bytes are written and counted, or there was an error and the first bytes are written, and no more
-- than these counted.
pub record Brings (fwrite : ℕ → List ℕ → Answer) (bytes : List ℕ) (w : Written) : Type 0 where
  pub rest : List ℕ
  pub first : bytes ≡ w.bytes ++ rest
  pub counted : w.count ≤ length w.bytes
  pub whole :
      ((rest ≡ []) × (w.count ≡ length bytes))
      ⊎ ((call : ℕ) × (asked : List ℕ) × ((fwrite call asked).has_error ≡ true))

module _ (fwrite : ℕ → List ℕ → Answer) (f : IsFwrite fwrite) where
  progress_here :
      (call b : ℕ) (bytes : List ℕ)
      → (fwrite call (b ∷ bytes)).has_error ≡ false
      → 0 < (fwrite call (b ∷ bytes)).written
  progress_here call b bytes fine = elim (f.progress call (b ∷ bytes)) [
    | inl error ↦ absurd (false≢true (sym fine ∙ error))
    | inr (inl some_bytes) ↦ some_bytes
    | inr (inr nothing) ↦ absurd (omega (arith, nothing))
  ]

  after :
      (n : ℕ) (bytes : List ℕ)
      → n ≤ length bytes
      → (w : Written) → Brings fwrite (drop n bytes) w
      → Brings fwrite bytes (before (take n bytes) n w)
  after n bytes h w k =
      let taken = length-take n bytes in
      record {
        rest = k.rest;
        first =
            sym (take-append-drop n bytes)
            ∙ ap (λ xs. take n bytes ++ xs) k.first
            ∙ sym (append_assoc (take n bytes) w.bytes k.rest);
        counted = omega (arith, length-append (take n bytes) w.bytes, taken, h, k.counted);
        whole = elim k.whole [
          | inl all ↦ inl (all.0, omega (arith, all.1, length-drop n bytes, h))
          | inr error ↦ inr error
        ];
      }

  append_loop-Brings :
      (fuel call : ℕ) (bytes : List ℕ)
      → length bytes ≤ fuel
      → (w : Written) × (append_loop fwrite fuel call bytes ≡ some w) × Brings fwrite bytes w
  unfolding append_loop
  append_loop-Brings zero call [] h = (record { bytes = []; count = 0 }, refl, nothing)
    where
      nothing : Brings fwrite [] (record { bytes = []; count = 0 })
      nothing = record { rest = []; first = refl; counted = omega arith; whole = inl (refl, refl) }
  append_loop-Brings zero call (b ∷ bytes) h = absurd (omega (arith, h))
  append_loop-Brings (suc fuel) call [] h = (
    record { bytes = []; count = 0 },
    refl,
    record { rest = []; first = refl; counted = omega arith; whole = inl (refl, refl) },
  )
  append_loop-Brings (suc fuel) call (b ∷ bytes) h =
      let n = (fwrite call (b ∷ bytes)).written in
      elim (Bool-cases (n == length (b ∷ bytes))) [
        | inl all ↦ (
          record { bytes = b ∷ bytes; count = length (b ∷ bytes) },
          rw all refl,
          record {
            rest = [];
            first = sym (append-nil (b ∷ bytes));
            counted = omega arith;
            whole = inl (refl, refl);
          },
        )
        | inr part ↦ elim (Bool-cases (fwrite call (b ∷ bytes)).has_error) [
          | inl error ↦ (
            record { bytes = take n (b ∷ bytes); count = 0 },
            rw (part, error) refl,
            record {
              rest = drop n (b ∷ bytes);
              first = sym (take-append-drop n (b ∷ bytes));
              counted = omega arith;
              whole = inr (call, b ∷ bytes, error);
            },
          )
          | inr fine ↦
              let some_bytes = progress_here call b bytes fine in
              let left = length-drop n (b ∷ bytes) in
              let r =
                append_loop-Brings fuel (suc call) (drop n (b ∷ bytes))
                  (omega (arith, h, some_bytes, left)) in
              (
                before (take n (b ∷ bytes)) n r.0,
                rw (part, fine, r.1) refl,
                after n (b ∷ bytes) (f.at_most call (b ∷ bytes)) r.0 r.2,
              )
        ]
      ]

-- If fwrite writes at most what it is asked for, and less only with an error or if it has written
-- something, then append ends after at most as many calls as there are bytes. The file has then the
-- first of the bytes behind what it had, and no more than these are counted; these are all, and all are
-- counted, unless there was an error.
pub append-Brings :
    (fwrite : ℕ → List ℕ → Answer) (file : AppendFile) (call : ℕ) (bytes : List ℕ)
    → IsFwrite fwrite
    → (w : Written) × (append fwrite file call bytes
        ≡ some (record {
          contents = file.contents ++ w.bytes;
          written_bytes = file.written_bytes + w.count;
        }))
      × Brings fwrite bytes w
unfolding append
append-Brings fwrite file call bytes f =
    let r = append_loop-Brings fwrite f (length bytes) call bytes (omega arith) in
    (r.0, rw r.1 refl, r.2)
