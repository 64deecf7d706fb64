-- ===== src/TimeZone/SplitDay.antt =====
-- The day and the second of a moment, as `BreakTime` in base/TimeZone.cc finds them: first without
-- the bounds of int, and then the bounds.
use libanet.Common.{
  ℕ, zero, suc, ◌+◌, ◌-◌, ◌*◌, ◌/◌, ◌%◌, ◌<◌, ◌≡◌, ◌⊎◌, inl, inr, refl, sym, ap, ap₂, ◌∙◌, true,
  ◌≤◌, some, Bool-cases, arith, lt→ltb, if◌then◌else◌,
}
use libanet.Common.Int.{
  ℤ, pos, negsuc, ◌+ℤ◌, ◌-ℤ◌, ◌*ℤ◌, ◌/ℤ◌, ◌%ℤ◌, ltb_ℤ, pos_part, neg_part, int_laws,
}
use libanet.Common.Ints.{IsInt, is_int-IsInt, narrow_int-IsInt, one_part}
use libanet.Date.Bounds.{difference}
use libanet.TimeZone.{split_day, seconds_per_day}

pub mul_parts :
    (x : ℤ) (n : ℕ)
    → pos_part (x *ℤ pos n) + neg_part x * n ≡ neg_part (x *ℤ pos n) + pos_part x * n
unfolding ◌*ℤ◌
mul_parts x n = ground arith

neg_parts : (n : ℕ) → (pos_part (pos 0 -ℤ pos n) ≡ 0) × (neg_part (pos 0 -ℤ pos n) ≡ n)
unfolding ◌-ℤ◌
neg_parts n = (ground arith, ground arith)

-- The correction of a remainder, by its sign.
correct : ℤ → ℤ → ℤ × ℤ
correct days seconds =
    if ltb_ℤ seconds (pos 0)
    then (days -ℤ pos 1, seconds +ℤ pos seconds_per_day)
    else (days, seconds)

correct-pos : (days : ℤ) (n : ℕ) → correct days (pos n) ≡ (days, pos n)
unfolding correct
correct-pos days n = ground arith

correct-neg :
    (days : ℤ) (m : ℕ)
    → suc m < 86400
    → correct days (pos 0 -ℤ pos (suc m)) ≡ (days -ℤ pos 1, pos (86400 - suc m))
unfolding correct
correct-neg days m h = rw (below) (ap (λ s. (days -ℤ pos 1, s)) sum)
  where
    below : ltb_ℤ (pos 0 -ℤ pos (suc m)) (pos 0) ≡ true
    below = lt→ltb _ _ (omega (arith, neg_parts (suc m)))

    sum : pos 0 -ℤ pos (suc m) +ℤ pos seconds_per_day ≡ pos (86400 - suc m)
    sum = omega int_laws

no_remainder : pos 0 -ℤ pos 0 ≡ pos 0
no_remainder = omega int_laws

zero_or_suc : (n : ℕ) → (n ≡ 0) ⊎ ((m : ℕ) × (n ≡ suc m))
zero_or_suc zero = inl refl
zero_or_suc (suc m) = inr (m, refl)

-- What `split_day` finds, as integers.
pub divide_day : ℤ → ℤ × ℤ
unfolding correct
divide_day t = correct (t /ℤ 86400) (t %ℤ 86400)

-- The second of the day and the day that a moment stands for.
pub record IsMoment (t days : ℤ) (s : ℕ) : Type 0 where
  pub parts : divide_day t ≡ (days, pos s)
  pub below : s < 86400
  pub whole : t ≡ days *ℤ pos 86400 +ℤ pos s

-- The correction makes the division round down.
pub divide_day-IsMoment : (t : ℤ) → (days : ℤ) × (s : ℕ) × IsMoment t days s
unfolding divide_day correct
divide_day-IsMoment (pos a) = (
  pos (a / 86400),
  a % 86400,
  record {
    parts = correct-pos (pos (a / 86400)) (a % 86400);
    below = omega arith;
    whole = omega (int_laws, mul_parts (pos (a / 86400)) 86400);
  },
)
divide_day-IsMoment (negsuc a) = elim (zero_or_suc (suc a % 86400)) [
  | inl even ↦ (
    pos 0 -ℤ pos (suc a / 86400),
    0,
    record {
      parts =
          ap (λ r. correct (pos 0 -ℤ pos (suc a / 86400)) (pos 0 -ℤ pos r)) even
          ∙ ap (correct (pos 0 -ℤ pos (suc a / 86400))) no_remainder
          ∙ correct-pos (pos 0 -ℤ pos (suc a / 86400)) 0;
      below = omega arith;
      whole = omega (int_laws, mul_parts (pos 0 -ℤ pos (suc a / 86400)) 86400);
    },
  )
  | inr (m, odd) ↦ (
    pos 0 -ℤ pos (suc a / 86400) -ℤ pos 1,
    86400 - suc m,
    record {
      parts =
          ap (λ r. correct (pos 0 -ℤ pos (suc a / 86400)) (pos 0 -ℤ pos r)) odd
          ∙ correct-neg (pos 0 -ℤ pos (suc a / 86400)) m (omega arith);
      below = omega arith;
      whole = omega (int_laws, mul_parts (pos 0 -ℤ pos (suc a / 86400) -ℤ pos 1) 86400);
    },
  )
]

split_unique :
    (a b : ℤ) (s r : ℕ)
    → s < 86400
    → r < 86400
    → a *ℤ pos 86400 +ℤ pos s ≡ b *ℤ pos 86400 +ℤ pos r
    → (a ≡ b) × (s ≡ r)
split_unique a b s r hs hr e =
    let p = ap pos_part e in
    let n = ap neg_part e in
    (
      omega (int_laws, mul_parts a 86400, mul_parts b 86400, p, n),
      omega (int_laws, mul_parts a 86400, mul_parts b 86400, p, n),
    )

pub divide_day_whole :
    (days : ℤ) (s : ℕ) → s < 86400 → divide_day (days *ℤ pos 86400 +ℤ pos s) ≡ (days, pos s)
divide_day_whole days s h =
    let d = divide_day-IsMoment (days *ℤ pos 86400 +ℤ pos s) in
    let u = split_unique days d.0 s d.1 h d.2.below d.2.whole in
    d.2.parts ∙ sym (ap₂ (λ a b. (a, pos b)) u.0 u.1)

-- The number of the day is an int, also before its correction.
days-IsInt :
    (t : ℤ)
    → pos_part t ≤ 600000000 * 86400
    → neg_part t ≤ 600000000 * 86400
    → IsInt (t /ℤ 86400) × IsInt (t /ℤ 86400 -ℤ pos 1)
days-IsInt (pos a) h k =
    let few : a / 86400 ≤ 600000000 = omega (arith, h) in
    ((omega (arith, few), omega arith), difference (a / 86400) 1 (omega (arith, few)) (omega arith))
days-IsInt (negsuc a) h k =
    let few : suc a / 86400 ≤ 600000000 = omega (arith, k) in
    let zero_less = neg_parts (suc a / 86400) in
    let o = one_part (pos 0 -ℤ pos (suc a / 86400) -ℤ pos 1) in
    (
      (omega (arith, zero_less, few), omega (arith, zero_less, few)),
      (omega (int_laws, few, o), omega (int_laws, few, o)),
    )

pub split_day-divide_day :
    (t : ℤ)
    → pos_part t ≤ 600000000 * 86400
    → neg_part t ≤ 600000000 * 86400
    → split_day t ≡ some (divide_day t)
unfolding split_day divide_day correct
split_day-divide_day t h k =
    let ints = days-IsInt t h k in
    elim (Bool-cases (ltb_ℤ (t %ℤ 86400) (pos 0))) [
      | inl before ↦
          rw
            (
              narrow_int-IsInt (t /ℤ 86400) ints.0,
              before,
              is_int-IsInt (t /ℤ 86400 -ℤ pos 1) ints.1,
            )
            refl
      | inr after ↦ rw (narrow_int-IsInt (t /ℤ 86400) ints.0, after) refl
    ]
