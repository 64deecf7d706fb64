-- ===== src/BlockingQueue/Runs.antt =====
-- Runs of several threads on the queue of base/BlockingQueue.h.
use libanet.Common.{
  ℕ, zero, suc, ◌≤◌, ◌≡◌, ◌⊎◌, inl, inr, refl, sym, ap, subst, ◌∙◌, some, List, [], ◌∷◌, ◌++◌,
  length, length-append, arith,
}
use libanet.Condition.{Condition, notify}
use mathlib.Core.List.{append-nil, append_assoc}
use mathlib.Core.Option.{some-injective, none-ne-some}
use libanet.BlockingQueue.{
  BlockingQueue, Event, put, take, drain, resume, wakes, look, put_back, drain_all, look_again,
  step,
}

-- Nobody sleeps, or there is a woken thread for every element.
abbrev pub NoLost : {A : Type 0} → BlockingQueue A → Type 0
NoLost q = (q.not_empty.sleeping ≡ 0) ⊎ (length q.queue ≤ q.not_empty.woken)

abbrev pub puts : {A : Type 0} → Event A → List A
puts (put x) = x ∷ []
puts take = []
puts drain = []
puts resume = []
puts wakes = []

-- What a step keeps: the elements and their order, and that no notification is lost.
pub record Kept {A : Type 0} (q : BlockingQueue A) (e : Event A) (r : BlockingQueue A × List A)
    : Type 0 where
  pub in_order : q.queue ++ puts e ≡ r.1 ++ r.0.queue
  pub no_lost : NoLost q → NoLost r.0

module _ {A : Type 0} where
  put_back-Kept : (q : BlockingQueue A) (x : A) → Kept q (put x) (put_back q x, [])
  unfolding put_back
  put_back-Kept q x = record {
    in_order = refl;
    no_lost = λ n. waits q.not_empty.sleeping q.not_empty.woken n;
  }
    where
      waits :
          (s w : ℕ)
          → ((s ≡ 0) ⊎ (length q.queue ≤ w))
          → ((notify (record { sleeping = s; woken = w })).sleeping ≡ 0)
            ⊎ (length (q.queue ++ (x ∷ [])) ≤ (notify (record { sleeping = s; woken = w })).woken)
      waits zero w n = inl refl
      waits (suc s) w n = inr (omega (arith, length-append q.queue (x ∷ []), n))

  look-Kept :
      (c : Condition) (xs : List A)
      → Kept
          (record { not_empty = c; queue = xs })
          take
          (look (record { not_empty = c; queue = xs }) xs)
  unfolding look
  look-Kept c [] = record { in_order = refl; no_lost = λ n. inr (omega arith) }
  look-Kept c (x ∷ xs) = record { in_order = append-nil (x ∷ xs); no_lost = λ n. fewer n }
    where
      fewer :
          (c.sleeping ≡ 0) ⊎ (suc (length xs) ≤ c.woken) → (c.sleeping ≡ 0) ⊎ (length xs ≤ c.woken)
      fewer n = omega arith

  -- The thread that looks is one of those that were woken.
  look_again-Kept :
      (s w : ℕ) (xs : List A)
      → Kept
          (record { not_empty = record { sleeping = s; woken = suc w }; queue = xs })
          resume
          (look (record { not_empty = record { sleeping = s; woken = w }; queue = xs }) xs)
  unfolding look
  look_again-Kept s w [] = record { in_order = refl; no_lost = λ n. inr (omega arith) }
  look_again-Kept s w (x ∷ xs) = record { in_order = append-nil (x ∷ xs); no_lost = λ n. fewer n }
    where
      fewer : (s ≡ 0) ⊎ (suc (length xs) ≤ suc w) → (s ≡ 0) ⊎ (length xs ≤ w)
      fewer n = omega arith

  is_some :
      {q : BlockingQueue A} {e : Event A} {x : BlockingQueue A × List A}
      → Kept q e x
      → (r : BlockingQueue A × List A) → some x ≡ some r
      → Kept q e r
  is_some {q} {e} {x} k r h = subst (Kept q e) (some-injective x r h) k

  resume-Kept :
      (s w : ℕ) (xs : List A) (r : BlockingQueue A × List A)
      → look_again (record { not_empty = record { sleeping = s; woken = w }; queue = xs }) w
        ≡ some r
      → Kept (record { not_empty = record { sleeping = s; woken = w }; queue = xs }) resume r
  unfolding look_again
  resume-Kept s zero xs r h = absurd (none-ne-some r h)
  resume-Kept s (suc w) xs r h = is_some (look_again-Kept s w xs) r h

  wakes-Kept :
      (s w : ℕ) (xs : List A) (r : BlockingQueue A × List A)
      → step (record { not_empty = record { sleeping = s; woken = w }; queue = xs }) wakes ≡ some r
      → Kept (record { not_empty = record { sleeping = s; woken = w }; queue = xs }) wakes r
  unfolding step
  wakes-Kept zero w xs r h = absurd (none-ne-some r h)
  wakes-Kept (suc s) w xs r h =
      is_some (record { in_order = append-nil xs; no_lost = λ n. inr (more n) }) r h
    where
      more : (suc s ≡ 0) ⊎ (length xs ≤ w) → length xs ≤ suc w
      more n = omega arith

  step-Kept :
      (q : BlockingQueue A) (e : Event A) (r : BlockingQueue A × List A)
      → step q e ≡ some r
      → Kept q e r
  unfolding step drain_all
  step-Kept q (put x) r h = is_some (put_back-Kept q x) r h
  step-Kept q take r h = is_some (look-Kept q.not_empty q.queue) r h
  step-Kept q drain r h = is_some (record { in_order = refl; no_lost = λ n. inr (omega arith) }) r h
  step-Kept q resume r h = resume-Kept q.not_empty.sleeping q.not_empty.woken q.queue r h
  step-Kept q wakes r h = wakes-Kept q.not_empty.sleeping q.not_empty.woken q.queue r h

-- A run of the threads, with what they put in and what they get, in order.
pub data Run {A : Type 0} : BlockingQueue A → List A → List A → BlockingQueue A → Type 0 where
  stop : {q : BlockingQueue A} → Run q [] [] q
  steps :
      {q r q' : BlockingQueue A} {ins outs got : List A} (e : Event A)
      → step q e ≡ some (r, got)
      → Run r ins outs q'
      → Run q (puts e ++ ins) (got ++ outs) q'

-- Whatever the threads do, the elements are handed out in the order in which they were put in, none
-- is lost and none is handed out twice; and if no notification was lost before, then in the end no
-- thread sleeps while there are more elements than threads that have been woken.
pub threads-Kept :
    {A : Type 0} (q : BlockingQueue A) (ins outs : List A) (q' : BlockingQueue A)
    → Run q ins outs q'
    → (q.queue ++ ins ≡ outs ++ q'.queue) × (NoLost q → NoLost q')
threads-Kept q _ _ _ stop = (append-nil q.queue, λ n. n)
threads-Kept q _ _ q' (steps {r = r} {ins = ins} {outs = outs} {got = got} e h run) =
    let k = step-Kept q e (r, got) h in
    let rest = threads-Kept r ins outs q' run in
    (
      sym (append_assoc q.queue (puts e) ins)
          ∙ ap (λ xs. xs ++ ins) k.in_order
          ∙ append_assoc got r.queue ins
          ∙ ap (λ xs. got ++ xs) rest.0
          ∙ sym (append_assoc got outs q'.queue),
      λ n. rest.1 (k.no_lost n),
    )
