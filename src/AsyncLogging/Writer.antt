-- ===== src/AsyncLogging/Writer.antt =====
-- The buffers in `threadFunc` of base/AsyncLogging.cc.
use libanet.Common.{
  ℕ, ◌+◌, ◌-◌, ◌≤◌, ◌<◌, ◌≡◌, ◌⊎◌, inl, inr, refl, ap, subst, Option, none, some, List, [], ◌∷◌,
  ◌++◌, length, length-append, take, ltb, arith, Bool-cases, ltb→lt, lt→ltb,
}
use libanet.AsyncLogging.{
  Place, tests, waits, writes, finished, AsyncLogging, begin_loop, exchange, filled, left_over,
  append_all, drop_buffers, refill, write_buffers,
}
use libanet.AsyncLogging.Buffers.{IsSpare, Holds, Inv}

-- The thread moves on.
abbrev placed :
    (l : AsyncLogging) (p : Place)
    → Inv l
    → Holds p l.new_buffer_1 l.new_buffer_2 l.buffers_to_write
    → Inv (record l { place = p })
placed l p v k = record {
  current = v.current;
  has_current = v.has_current;
  within = v.within;
  next = v.next;
  thread = k;
}

pub begin_loop-Inv :
    (l : AsyncLogging)
    → l.place ≡ tests
    → Inv l
    → (p : Place) × (begin_loop l ≡ some (record l { place = p })) × Inv (record l { place = p })
unfolding begin_loop
begin_loop-Inv l h v =
    let k = subst (λ p. Holds p l.new_buffer_1 l.new_buffer_2 l.buffers_to_write) h v.thread in
    elim (Bool-cases l.running) [
      | inl goes ↦ (waits, rw (goes, k.0, k.1, k.2) refl, placed l waits v k)
      | inr ends ↦ (finished, rw ends refl, placed l finished v tt)
    ]

-- The state after `exchange`
abbrev pub exchanged : AsyncLogging → List ℕ → AsyncLogging
exchanged l current = record l {
  place = writes;
  buffers = [];
  current_buffer = some [];
  new_buffer_1 = none;
  buffers_to_write = l.buffers ++ (current ∷ []);
  next_buffer = some [];
  new_buffer_2 = left_over l.next_buffer (some []);
}

filled-empty :
    (p : Option (List ℕ)) (others : List (List ℕ)) (n : ℕ)
    → IsSpare p others n
    → filled p (some []) ≡ some []
filled-empty p others n (inl e) = ap (λ q. filled q (some [])) e
filled-empty p others n (inr e) = ap (λ q. filled q (some [])) e.0

left_over-IsSpare :
    (p : Option (List ℕ)) (others taken : List (List ℕ))
    → length taken ≡ length others + 1
    → IsSpare p others 1
    → IsSpare (left_over p (some [])) taken 2
left_over-IsSpare p others taken n (inl e) = inl (ap (λ q. left_over q (some [])) e)
left_over-IsSpare p others taken n (inr e) =
    inr (ap (λ q. left_over q (some [])) e.0, omega (arith, n, e.1))

pub exchange-Inv :
    (l : AsyncLogging)
    → l.place ≡ waits
    → (v : Inv l)
    → (l.buffers_to_write ≡ [])
      × (exchange l ≡ some (exchanged l v.current))
      × Inv (exchanged l v.current)
unfolding exchange
exchange-Inv l h v = (
  k.2,
  rw
      (
        v.has_current,
        lt→ltb 0 (length (l.buffers ++ (v.current ∷ []))) (omega (arith, one_more)),
        k.0,
        k.1,
        k.2,
        filled-empty l.next_buffer l.buffers 1 v.next,
      )
      refl,
  record {
    current = [];
    has_current = refl;
    within = omega arith;
    next = inl refl;
    thread = (
      refl,
      omega (arith, one_more),
      left_over-IsSpare l.next_buffer l.buffers _ one_more v.next,
    );
  },
)
  where
    k : Holds waits l.new_buffer_1 l.new_buffer_2 l.buffers_to_write
    k = subst (λ p. Holds p l.new_buffer_1 l.new_buffer_2 l.buffers_to_write) h v.thread

    one_more : length (l.buffers ++ (v.current ∷ [])) ≡ length l.buffers + 1
    one_more = length-append l.buffers (v.current ∷ [])

-- The two buffers can be taken from those that were written.
refill-empty :
    (q : Option (List ℕ)) (taken : List (List ℕ))
    → 0 < length taken
    → IsSpare q taken 2
    → (rest_1 rest_2 : List (List ℕ)) × (refill none (take 2 taken) ≡ some (some [], rest_1))
      × (refill q rest_1 ≡ some (some [], rest_2))
unfolding refill
refill-empty q [] h s = absurd (omega (arith, h))
refill-empty q (x ∷ []) h (inl e) = ([], [], refl, rw e refl)
refill-empty q (x ∷ []) h (inr e) = absurd (omega (arith, e.1))
refill-empty q (x ∷ y ∷ xs) h (inl e) = (x ∷ [], x ∷ [], refl, rw e refl)
refill-empty q (x ∷ y ∷ xs) h (inr e) = (x ∷ [], [], refl, rw e.0 refl)

-- The state after `write_buffers`
abbrev pub written : AsyncLogging → AsyncLogging
written l = record l {
  place = tests;
  output = append_all l.output l.buffers_to_write;
  new_buffer_1 = some [];
  new_buffer_2 = some [];
  buffers_to_write = [];
}

-- The state after the buffers but for two are dropped
abbrev pub shortened : AsyncLogging → List ℕ → AsyncLogging
shortened l note = record l {
  output = l.output ++ note;
  buffers_to_write = take 2 l.buffers_to_write;
  dropped = l.dropped + (length l.buffers_to_write - 2);
}

written-Inv : (l : AsyncLogging) → Inv l → Inv (written l)
written-Inv l v = record {
  current = v.current;
  has_current = v.has_current;
  within = v.within;
  next = v.next;
  thread = (refl, refl, refl);
}

dropped-Inv : (l : AsyncLogging) (note : List ℕ) → Inv l → Inv (written (shortened l note))
dropped-Inv l note v = record {
  current = v.current;
  has_current = v.has_current;
  within = v.within;
  next = v.next;
  thread = (refl, refl, refl);
}

first_two : (xs : List (List ℕ)) → 2 ≤ length xs → length (take 2 xs) ≡ 2
first_two [] h = absurd (omega (arith, h))
first_two (x ∷ []) h = absurd (omega (arith, h))
first_two (x ∷ y ∷ xs) h = refl

fewer-IsSpare :
    (q : Option (List ℕ)) (xs ys : List (List ℕ)) → length ys ≡ 2 → IsSpare q xs 2 → IsSpare q ys 2
fewer-IsSpare q xs ys n (inl e) = inl e
fewer-IsSpare q xs ys n (inr e) = inr (e.0, omega (arith, n))

pub write_buffers-cases :
    (l : AsyncLogging) (note : List ℕ)
    → l.place ≡ writes
    → Inv l
    → ((write_buffers l note ≡ some (written l)) × Inv (written l))
      ⊎ ((25 < length l.buffers_to_write)
          × (write_buffers l note ≡ some (written (shortened l note)))
          × Inv (written (shortened l note)))
unfolding write_buffers drop_buffers
write_buffers-cases l note h v =
    let k = subst (λ p. Holds p l.new_buffer_1 l.new_buffer_2 l.buffers_to_write) h v.thread in
    elim (Bool-cases (ltb 25 (length l.buffers_to_write))) [
      | inl many ↦
          let more = ltb→lt 25 (length l.buffers_to_write) many in
          let two = first_two l.buffers_to_write (omega (arith, more)) in
          let r =
            refill-empty l.new_buffer_2 (take 2 l.buffers_to_write) (omega (arith, two))
              (fewer-IsSpare l.new_buffer_2 l.buffers_to_write _ two k.2) in
          inr (more, rw (many, k.0, r.2, r.3) refl, dropped-Inv l note v)
      | inr few ↦
          let r = refill-empty l.new_buffer_2 l.buffers_to_write k.1 k.2 in
          inl (rw (few, k.0, r.2, r.3) refl, written-Inv l v)
    ]
