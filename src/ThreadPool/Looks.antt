-- ===== src/ThreadPool/Looks.antt =====
-- What `run` and `take` of base/ThreadPool.cc do with the queue and the threads that wait.
use libanet.Common.{
  ℕ, suc, ◌+◌, ◌≤◌, ◌<◌, ◌≡◌, ◌⊎◌, inl, inr, refl, sym, ap, subst, ◌∙◌, true, false, List, [], ◌∷◌,
  ◌++◌, length, length-append, ltb, arith, Bool-cases,
}
use mathlib.Core.Bool.{false≢true}
use mathlib.Core.List.{append-nil}
use libanet.Condition.{notify}
use libanet.Condition.Counts.{notified, freed, nobody_notified}
use libanet.ThreadPool.{ThreadPool, only, is_full, look_run, look_take}

-- The queue keeps to its size, if there is one; nobody waits for a task unless there is a woken thread
-- for every task, or for room unless there is one for every free place; and nobody waits in a pool
-- that does not run.
pub record Sound (p : ThreadPool) : Type 0 where
  pub bounded : 0 < p.max_queue_size → length p.queue ≤ p.max_queue_size
  pub takers : (p.not_empty.sleeping ≡ 0) ⊎ (length p.queue ≤ p.not_empty.woken)
  pub runners : (p.not_full.sleeping ≡ 0) ⊎ (p.max_queue_size ≤ length p.queue + p.not_full.woken)
  pub stopped : p.running ≡ false → (p.not_empty.sleeping ≡ 0) × (p.not_full.sleeping ≡ 0)

-- Of a thread that waits for a task and runs again, and of one that waits for room: it is one of those
-- that were woken.
pub record Half (p : ThreadPool) (task room : ℕ) : Type 0 where
  pub bounded : 0 < p.max_queue_size → length p.queue ≤ p.max_queue_size
  pub takers : (p.not_empty.sleeping ≡ 0) ⊎ (length p.queue ≤ task + p.not_empty.woken)
  pub runners :
      (p.not_full.sleeping ≡ 0) ⊎ (p.max_queue_size ≤ length p.queue + (room + p.not_full.woken))
  pub stopped : p.running ≡ false → (p.not_empty.sleeping ≡ 0) × (p.not_full.sleeping ≡ 0)

abbrev waiting : ThreadPool → ThreadPool
waiting p = record p {
  not_full = record { sleeping = suc p.not_full.sleeping; woken = p.not_full.woken };
}

abbrev pushed : ThreadPool → ℕ → ThreadPool
pushed p task = record p { queue = p.queue ++ (task ∷ []); not_empty = notify p.not_empty }

look_run-ends : (p : ThreadPool) (task : ℕ) → p.running ≡ false → look_run p task ≡ only p
unfolding look_run
look_run-ends p task ends = elim (Bool-cases (is_full p)) [
  | inl full ↦ rw (full, ends) refl
  | inr room ↦ rw (room, ends) refl
]

look_run-waits :
    (p : ThreadPool) (task : ℕ)
    → p.running ≡ true
    → is_full p ≡ true
    → look_run p task ≡ only (waiting p)
unfolding look_run
look_run-waits p task goes full = rw (full, goes) refl

look_run-pushes :
    (p : ThreadPool) (task : ℕ)
    → p.running ≡ true
    → is_full p ≡ false
    → look_run p task ≡ record { state = pushed p task; ins = task ∷ []; outs = [] }
unfolding look_run
look_run-pushes p task goes room = rw (room, goes) refl

is_full-length : (p : ThreadPool) → is_full p ≡ true → p.max_queue_size ≤ length p.queue
unfolding is_full
is_full-length p h = ground arith

not_full-length :
    (p : ThreadPool) → is_full p ≡ false → 0 < p.max_queue_size → length p.queue < p.max_queue_size
unfolding is_full
not_full-length p h m = ground arith

one_more : (p : ThreadPool) (task : ℕ) → length (p.queue ++ (task ∷ [])) ≡ suc (length p.queue)
one_more p task = omega (arith, length-append p.queue (task ∷ []))

pub look_run-Sound : (p : ThreadPool) (task : ℕ) → Half p 0 1 → Sound (look_run p task).state
look_run-Sound p task h = elim (Bool-cases p.running) [
  | inr ends ↦ rw (look_run-ends p task ends) (record {
    bounded = h.bounded;
    takers = inl (h.stopped ends).0;
    runners = inl (h.stopped ends).1;
    stopped = h.stopped;
  })
  | inl goes ↦ elim (Bool-cases (is_full p)) [
    | inl full ↦ rw (look_run-waits p task goes full) (record {
      bounded = h.bounded;
      takers = omega (arith, h.takers);
      runners = inr (omega (arith, is_full-length p full));
      stopped = λ k. absurd (false≢true (sym k ∙ goes));
    })
    | inr room ↦ rw (look_run-pushes p task goes room) (record {
      bounded = λ k. omega (arith, one_more p task, not_full-length p room k);
      takers =
          subst (λ n. ((notify p.not_empty).sleeping ≡ 0) ⊎ (n ≤ (notify p.not_empty).woken))
            (sym (one_more p task))
            (notified p.not_empty.sleeping p.not_empty.woken (length p.queue)
              (omega (arith, h.takers)));
      runners = omega (arith, one_more p task, h.runners);
      stopped = λ k. absurd (false≢true (sym k ∙ goes));
    })
  ]
]

pub look_run-in_order :
    (p : ThreadPool) (task : ℕ)
    → p.queue ++ (look_run p task).ins ≡ (look_run p task).outs ++ (look_run p task).state.queue
look_run-in_order p task = elim (Bool-cases p.running) [
  | inr ends ↦ rw (look_run-ends p task ends) (append-nil p.queue)
  | inl goes ↦ elim (Bool-cases (is_full p)) [
    | inl full ↦ rw (look_run-waits p task goes full) (append-nil p.queue)
    | inr room ↦ rw (look_run-pushes p task goes room) refl
  ]
]

abbrev taken : ThreadPool → List ℕ → ThreadPool
taken p tasks = record p { queue = tasks; not_full = notify p.not_full }

look_take-bounded :
    (p : ThreadPool) (task : ℕ) (tasks : List ℕ)
    → ltb 0 p.max_queue_size ≡ true
    → look_take p (task ∷ tasks) ≡ record { state = taken p tasks; ins = []; outs = task ∷ [] }
unfolding look_take
look_take-bounded p task tasks h = rw h refl

look_take-unbounded :
    (p : ThreadPool) (task : ℕ) (tasks : List ℕ)
    → ltb 0 p.max_queue_size ≡ false
    → look_take p (task ∷ tasks)
      ≡ record { state = record p { queue = tasks }; ins = []; outs = task ∷ [] }
unfolding look_take
look_take-unbounded p task tasks h = rw h refl

abbrev hungry : ThreadPool → ThreadPool
hungry p = record p {
  not_empty = record { sleeping = suc p.not_empty.sleeping; woken = p.not_empty.woken };
}

look_take-waits : (p : ThreadPool) → p.running ≡ true → look_take p [] ≡ only (hungry p)
unfolding look_take
look_take-waits p goes = rw goes refl

look_take-ends : (p : ThreadPool) → p.running ≡ false → look_take p [] ≡ only p
unfolding look_take
look_take-ends p ends = rw ends refl

pub look_take-Sound :
    (p : ThreadPool) (tasks : List ℕ)
    → p.queue ≡ tasks
    → Half p 1 0
    → Sound (look_take p tasks).state
look_take-Sound p [] e h = elim (Bool-cases p.running) [
  | inr ends ↦ rw (look_take-ends p ends) (record {
    bounded = h.bounded;
    takers = inl (h.stopped ends).0;
    runners = inl (h.stopped ends).1;
    stopped = h.stopped;
  })
  | inl goes ↦ rw (look_take-waits p goes) (record {
    bounded = h.bounded;
    takers = inr (omega (arith, ap (length {A = ℕ}) e));
    runners = omega (arith, h.runners);
    stopped = λ k. absurd (false≢true (sym k ∙ goes));
  })
]
look_take-Sound p (task ∷ tasks) e h = elim (Bool-cases (ltb 0 p.max_queue_size)) [
  | inl some_size ↦ rw (look_take-bounded p task tasks some_size) (record {
    bounded = λ k. omega (arith, size, h.bounded k);
    takers = omega (arith, size, h.takers);
    runners =
        freed p.not_full.sleeping p.not_full.woken p.max_queue_size (length tasks)
          (omega (arith, size, h.runners));
    stopped = λ k.
        ((h.stopped k).0, nobody_notified p.not_full.sleeping p.not_full.woken (h.stopped k).1);
  })
  | inr no_size ↦ rw (look_take-unbounded p task tasks no_size) (record {
    bounded = λ k. omega (arith, size, h.bounded k);
    takers = omega (arith, size, h.takers);
    runners = inr (ground arith);
    stopped = h.stopped;
  })
]
  where
    size : length p.queue ≡ suc (length tasks)
    size = ap length e

pub look_take-in_order :
    (p : ThreadPool) (tasks : List ℕ)
    → p.queue ≡ tasks
    → p.queue ++ (look_take p tasks).ins
      ≡ (look_take p tasks).outs ++ (look_take p tasks).state.queue
look_take-in_order p [] e = elim (Bool-cases p.running) [
  | inr ends ↦ rw (look_take-ends p ends) (append-nil p.queue)
  | inl goes ↦ rw (look_take-waits p goes) (append-nil p.queue)
]
look_take-in_order p (task ∷ tasks) e = elim (Bool-cases (ltb 0 p.max_queue_size)) [
  | inl some_size ↦ rw (look_take-bounded p task tasks some_size) (append-nil p.queue ∙ e)
  | inr no_size ↦ rw (look_take-unbounded p task tasks no_size) (append-nil p.queue ∙ e)
]
