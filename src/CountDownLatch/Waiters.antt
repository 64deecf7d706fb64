-- ===== src/CountDownLatch/Waiters.antt =====
-- The threads that wait for the latch of base/CountDownLatch.cc.
use libanet.Common.{ℕ, zero, suc, ◌≡◌, refl, sym, subst, ◌∙◌, false, some, arith}
use libanet.Common.Int.{ℤ, pos, ◌-ℤ◌, ◌≤ℤ◌, ltb_ℤ, int_laws}
use mathlib.Core.Option.{some-injective, none-ne-some}
use libanet.CountDownLatch.{
  CountDownLatch, Event, counts, waits, resumes, count_down, look, look_again, is_zero_count, step,
}

-- A run of the threads in which no sleeper wakes for no reason.
pub data Run : CountDownLatch → CountDownLatch → Type 0 where
  stop : {l : CountDownLatch} → Run l l
  steps : {l m k : CountDownLatch} (e : Event) → step l e ≡ some m → Run m k → Run l k

-- The latch is open.
abbrev pub IsOpen : CountDownLatch → Type 0
IsOpen l = l.count ≤ℤ pos 0

record Asleep (l m : CountDownLatch) : Type 0 where
  opened : IsOpen m
  same : m.condition.sleeping ≡ l.condition.sleeping

not_zero : (c : ℤ) → c ≤ℤ pos 0 → is_zero_count (c -ℤ pos 1) ≡ false
unfolding ◌-ℤ◌
not_zero c h = ground arith

count_down-Asleep : (l : CountDownLatch) → IsOpen l → Asleep l (count_down l)
unfolding count_down
count_down-Asleep l h = record { opened = omega int_laws; same = rw (not_zero l.count h) refl }

open_passes : (c : ℤ) → c ≤ℤ pos 0 → ltb_ℤ (pos 0) c ≡ false
open_passes c h = ground arith

look_open : (l : CountDownLatch) → IsOpen l → look l ≡ l
unfolding look
look_open l h = rw (open_passes l.count h) refl

resume-Asleep :
    (s w : ℕ) (c : ℤ) (m : CountDownLatch)
    → c ≤ℤ pos 0
    → look_again (record { condition = record { sleeping = s; woken = w }; count = c }) w ≡ some m
    → Asleep (record { condition = record { sleeping = s; woken = w }; count = c }) m
unfolding look_again
resume-Asleep s zero c m h e = absurd (none-ne-some m e)
resume-Asleep s (suc w) c m h e =
    let l : CountDownLatch = record { condition = record { sleeping = s; woken = w }; count = c } in
    let same = sym (look_open l h) ∙ some-injective (look l) m e in
    subst (Asleep (record { condition = record { sleeping = s; woken = suc w }; count = c })) same
      (record { opened = h; same = refl })

step-Asleep :
    (l : CountDownLatch) (e : Event) (m : CountDownLatch)
    → IsOpen l
    → step l e ≡ some m
    → Asleep l m
unfolding step
step-Asleep l counts m h e =
    subst (Asleep l) (some-injective (count_down l) m e) (count_down-Asleep l h)
step-Asleep l waits m h e =
    subst (Asleep l) (sym (look_open l h) ∙ some-injective (look l) m e)
      (record { opened = h; same = refl })
step-Asleep l resumes m h e = resume-Asleep l.condition.sleeping l.condition.woken l.count m h e

threads-Asleep : (l m : CountDownLatch) → IsOpen l → Run l m → Asleep l m
threads-Asleep l _ h stop = record { opened = h; same = refl }
threads-Asleep l k h (steps {m = m} e s run) =
    let a = step-Asleep l e m h s in
    let rest = threads-Asleep m k a.opened run in
    record { opened = rest.opened; same = rest.same ∙ a.same }

-- When the count goes down from 1 to 0 while threads sleep, all of them but one sleep on, whatever
-- the threads do, unless one wakes for no reason.
pub count_down-sleeping :
    (s w : ℕ) (m : CountDownLatch)
    → Run
        (count_down (record { condition = record { sleeping = suc s; woken = w }; count = pos 1 }))
        m
    → m.condition.sleeping ≡ s
unfolding count_down ◌-ℤ◌
count_down-sleeping s w m run =
    (threads-Asleep
      (count_down (record { condition = record { sleeping = suc s; woken = w }; count = pos 1 })) m
      (omega arith) run).same
