-- ===== src/BoundedBlockingQueue/Runs.antt =====
-- Runs of several threads on the queue of base/BoundedBlockingQueue.h.
use libanet.Common.{
  ℕ, zero, suc, ◌+◌, ◌≤◌, ◌≡◌, ◌⊎◌, inl, inr, refl, sym, ap, subst, ◌∙◌, some, List, [], ◌∷◌, ◌++◌,
  length, length-append, arith, Bool-cases,
}
use libanet.Condition.{notify}
use libanet.Condition.Counts.{notified, freed, weaker, weaker_sum}
use mathlib.Core.List.{append-nil, append_assoc}
use mathlib.Core.Option.{some-injective, none-ne-some}
use libanet.BoundedBlockingQueue.{
  BoundedBlockingQueue, Outcome, Event, put, resume_put, take, resume_take, wakes_put, wakes_take,
  is_full, look_put, look_take, again_put, again_take, wake_put, wake_take, step,
}

-- The queue keeps to its size; nobody waits for an element unless there is a woken thread for every
-- element, or for room unless there is one for every free place.
pub record Sound {A : Type 0} (q : BoundedBlockingQueue A) : Type 0 where
  pub bounded : length q.queue ≤ q.max_size
  pub takers : (q.not_empty.sleeping ≡ 0) ⊎ (length q.queue ≤ q.not_empty.woken)
  pub putters : (q.not_full.sleeping ≡ 0) ⊎ (q.max_size ≤ length q.queue + q.not_full.woken)

pub record Kept {A : Type 0} (q : BoundedBlockingQueue A) (r : Outcome A) : Type 0 where
  pub in_order : q.queue ++ r.ins ≡ r.outs ++ r.state.queue
  pub sound : Sound q → Sound r.state

module _ {A : Type 0} where
  look_put-Kept :
      (q : BoundedBlockingQueue A) (x : A)
      → q.queue ++ (look_put q x).ins ≡ (look_put q x).outs ++ (look_put q x).state.queue
  unfolding look_put
  look_put-Kept q x = elim (Bool-cases (is_full q.max_size q.queue)) [
    | inl full ↦ rw full (append-nil q.queue)
    | inr room ↦ rw room refl
  ]

  look_put-Sound :
      (q : BoundedBlockingQueue A) (x : A)
      → length q.queue ≤ q.max_size
      → (q.not_empty.sleeping ≡ 0) ⊎ (length q.queue ≤ q.not_empty.woken)
      → (q.not_full.sleeping ≡ 0) ⊎ (q.max_size ≤ length q.queue + suc q.not_full.woken)
      → Sound (look_put q x).state
  unfolding look_put
  look_put-Sound q x b t p = elim (Bool-cases (is_full q.max_size q.queue)) [
    | inl full ↦ rw full (record { bounded = b; takers = t; putters = inr (ground arith) })
    | inr room ↦
        let len = length-append q.queue (x ∷ []) in
        let more = notified q.not_empty.sleeping q.not_empty.woken (length q.queue) t in
        rw room (record {
          bounded = ground arith;
          takers =
              subst (λ n. ((notify q.not_empty).sleeping ≡ 0) ⊎ (n ≤ (notify q.not_empty).woken))
                (sym (len ∙ omega arith)) more;
          putters = omega arith;
        })
  ]

  look_take-Sound :
      (q : BoundedBlockingQueue A) (xs : List A)
      → length xs ≤ q.max_size
      → (q.not_empty.sleeping ≡ 0) ⊎ (length xs ≤ suc q.not_empty.woken)
      → (q.not_full.sleeping ≡ 0) ⊎ (q.max_size ≤ length xs + q.not_full.woken)
      → Sound (look_take (record q { queue = xs }) xs).state
  unfolding look_take
  look_take-Sound q [] b t p = record { bounded = b; takers = inr (omega arith); putters = p }
  look_take-Sound q (x ∷ xs) b t p = record {
    bounded = omega arith;
    takers = omega arith;
    putters = freed q.not_full.sleeping q.not_full.woken q.max_size (length xs) p;
  }

  look_take-Kept :
      (q : BoundedBlockingQueue A) (xs : List A)
      → xs ++ (look_take (record q { queue = xs }) xs).ins
        ≡ (look_take (record q { queue = xs }) xs).outs
          ++ (look_take (record q { queue = xs }) xs).state.queue
  unfolding look_take
  look_take-Kept q [] = refl
  look_take-Kept q (x ∷ xs) = append-nil (x ∷ xs)

  put-Kept : (q : BoundedBlockingQueue A) (x : A) → Kept q (look_put q x)
  put-Kept q x = record {
    in_order = look_put-Kept q x;
    sound = λ s.
        look_put-Sound q x s.bounded s.takers
          (weaker_sum q.not_full.sleeping q.max_size (length q.queue) q.not_full.woken s.putters);
  }

  take-Kept : (q : BoundedBlockingQueue A) → Kept q (look_take q q.queue)
  take-Kept q = record {
    in_order = look_take-Kept q q.queue;
    sound = λ s.
        look_take-Sound q q.queue s.bounded
          (weaker q.not_empty.sleeping (length q.queue) q.not_empty.woken s.takers) s.putters;
  }

  is_some :
      {q : BoundedBlockingQueue A} {x : Outcome A}
      → Kept q x
      → (r : Outcome A) → some x ≡ some r
      → Kept q r
  is_some {q} {x} k r h = subst (Kept q) (some-injective x r h) k

  again_put-Kept :
      (q : BoundedBlockingQueue A) (x : A) (s w : ℕ) (r : Outcome A)
      → again_put (record q { not_full = record { sleeping = s; woken = w } }) x w ≡ some r
      → Kept (record q { not_full = record { sleeping = s; woken = w } }) r
  unfolding again_put
  again_put-Kept q x s zero r h = absurd (none-ne-some r h)
  again_put-Kept q x s (suc w) r h =
      let q' : BoundedBlockingQueue A = record q {
        not_full = record { sleeping = s; woken = w };
      } in
      is_some
        (record {
          in_order = look_put-Kept q' x;
          sound = λ k. look_put-Sound q' x k.bounded k.takers k.putters;
        })
        r h

  again_take-Kept :
      (q : BoundedBlockingQueue A) (s w : ℕ) (r : Outcome A)
      → again_take (record q { not_empty = record { sleeping = s; woken = w } }) w ≡ some r
      → Kept (record q { not_empty = record { sleeping = s; woken = w } }) r
  unfolding again_take
  again_take-Kept q s zero r h = absurd (none-ne-some r h)
  again_take-Kept q s (suc w) r h =
      let q' : BoundedBlockingQueue A = record q {
        not_empty = record { sleeping = s; woken = w };
      } in
      is_some
        (record {
          in_order = look_take-Kept q' q.queue;
          sound = λ k. look_take-Sound q' q.queue k.bounded k.takers k.putters;
        })
        r h

  wake_put-Kept :
      (q : BoundedBlockingQueue A) (s w : ℕ) (r : Outcome A)
      → wake_put (record q { not_full = record { sleeping = s; woken = w } }) s ≡ some r
      → Kept (record q { not_full = record { sleeping = s; woken = w } }) r
  unfolding wake_put
  wake_put-Kept q zero w r h = absurd (none-ne-some r h)
  wake_put-Kept q (suc s) w r h =
      is_some
        (record {
          in_order = append-nil q.queue;
          sound =
              λ k. record { bounded = k.bounded; takers = k.takers; putters = wake_sum k.putters };
        })
        r h
    where
      wake_sum :
          (suc s ≡ 0) ⊎ (q.max_size ≤ length q.queue + w)
          → (s ≡ 0) ⊎ (q.max_size ≤ length q.queue + suc w)
      wake_sum k = omega (arith, k)

  wake_take-Kept :
      (q : BoundedBlockingQueue A) (s w : ℕ) (r : Outcome A)
      → wake_take (record q { not_empty = record { sleeping = s; woken = w } }) s ≡ some r
      → Kept (record q { not_empty = record { sleeping = s; woken = w } }) r
  unfolding wake_take
  wake_take-Kept q zero w r h = absurd (none-ne-some r h)
  wake_take-Kept q (suc s) w r h =
      is_some
        (record {
          in_order = append-nil q.queue;
          sound =
              λ k. record { bounded = k.bounded; takers = wake_le k.takers; putters = k.putters };
        })
        r h
    where
      wake_le : (suc s ≡ 0) ⊎ (length q.queue ≤ w) → (s ≡ 0) ⊎ (length q.queue ≤ suc w)
      wake_le k = omega (arith, k)

  step-Kept :
      (q : BoundedBlockingQueue A) (e : Event A) (r : Outcome A) → step q e ≡ some r → Kept q r
  unfolding step
  step-Kept q (put x) r h = is_some (put-Kept q x) r h
  step-Kept q (resume_put x) r h = again_put-Kept q x q.not_full.sleeping q.not_full.woken r h
  step-Kept q take r h = is_some (take-Kept q) r h
  step-Kept q resume_take r h = again_take-Kept q q.not_empty.sleeping q.not_empty.woken r h
  step-Kept q wakes_put r h = wake_put-Kept q q.not_full.sleeping q.not_full.woken r h
  step-Kept q wakes_take r h = wake_take-Kept q q.not_empty.sleeping q.not_empty.woken r h

-- A run of the threads, with what they put in and what they get, in order.
pub data Run {A : Type 0}
    : BoundedBlockingQueue A → List A → List A → BoundedBlockingQueue A → Type 0 where
  stop : {q : BoundedBlockingQueue A} → Run q [] [] q
  steps :
      {q q' : BoundedBlockingQueue A} {ins outs : List A} (e : Event A) (r : Outcome A)
      → step q e ≡ some r
      → Run r.state ins outs q'
      → Run q (r.ins ++ ins) (r.outs ++ outs) q'

-- Whatever the threads do, wakeups without a notification included, the elements that found room are handed out in the order in which they
-- were put in, none is lost and none is handed out twice; and if before the run the queue kept to its
-- size, no thread slept while there were more elements than threads woken for one, and none while
-- there was more room than threads woken for it, then so it is afterwards.
pub all_threads-Kept :
    {A : Type 0} (q : BoundedBlockingQueue A) (ins outs : List A) (q' : BoundedBlockingQueue A)
    → Run q ins outs q'
    → (q.queue ++ ins ≡ outs ++ q'.queue) × (Sound q → Sound q')
all_threads-Kept q _ _ _ stop = (append-nil q.queue, λ s. s)
all_threads-Kept q _ _ q' (steps {ins = ins} {outs = outs} e r h run) =
    let k = step-Kept q e r h in
    let rest = all_threads-Kept r.state ins outs q' run in
    (
      sym (append_assoc q.queue r.ins ins)
          ∙ ap (λ xs. xs ++ ins) k.in_order
          ∙ append_assoc r.outs r.state.queue ins
          ∙ ap (λ xs. r.outs ++ xs) rest.0
          ∙ sym (append_assoc r.outs outs q'.queue),
      λ s. rest.1 (k.sound s),
    )
