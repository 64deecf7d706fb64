-- ===== src/Condition/Counts.antt =====
-- Numbers of sleeping and woken threads of base/Condition.h.
use libanet.Common.{ℕ, zero, suc, ◌+◌, ◌≤◌, ◌≡◌, ◌⊎◌, inl, inr, refl, arith}
use libanet.Condition.{notify}

pub notified :
    (s w n : ℕ)
    → (s ≡ 0) ⊎ (n ≤ w)
    → ((notify (record { sleeping = s; woken = w })).sleeping ≡ 0)
      ⊎ (suc n ≤ (notify (record { sleeping = s; woken = w })).woken)
notified zero w n h = inl refl
notified (suc s) w n h = inr (omega arith)

pub freed :
    (s w m n : ℕ)
    → (s ≡ 0) ⊎ (m ≤ suc n + w)
    → ((notify (record { sleeping = s; woken = w })).sleeping ≡ 0)
      ⊎ (m ≤ n + (notify (record { sleeping = s; woken = w })).woken)
freed zero w m n h = inl refl
freed (suc s) w m n h = inr (omega arith)

pub weaker : (s m n : ℕ) → (s ≡ 0) ⊎ (m ≤ n) → (s ≡ 0) ⊎ (m ≤ suc n)
weaker s m n h = omega arith

pub weaker_sum : (s m n w : ℕ) → (s ≡ 0) ⊎ (m ≤ n + w) → (s ≡ 0) ⊎ (m ≤ n + suc w)
weaker_sum s m n w h = omega arith

pub nobody_notified : (s w : ℕ) → s ≡ 0 → (notify (record { sleeping = s; woken = w })).sleeping ≡ 0
nobody_notified zero w h = refl
nobody_notified (suc s) w h = omega (arith, h)
