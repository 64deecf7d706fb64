-- ===== src/ThreadPool/Runs.antt =====
-- Runs of several threads on the queue of base/ThreadPool.cc.
use libanet.Common.{ℕ, ◌≡◌, inl, refl, sym, ap, ◌∙◌, List, ◌++◌, arith}
use mathlib.Core.List.{append-nil, append_assoc}
use libanet.ThreadPool.{
  ThreadPool, Outcome, stop, Step, runs, runs_on, takes, takes_on, stops, wakes_for_room,
  wakes_for_task, Run, end, steps,
}
use libanet.ThreadPool.Looks.{
  Sound, look_run-Sound, look_run-in_order, look_take-Sound, look_take-in_order,
}

pub record Kept (p : ThreadPool) (r : Outcome) : Type 0 where
  pub in_order : p.queue ++ r.ins ≡ r.outs ++ r.state.queue
  pub sound : Sound p → Sound r.state

stop-Sound : (p : ThreadPool) → Sound p → Sound (stop p)
unfolding stop
stop-Sound p h = record {
  bounded = h.bounded;
  takers = inl refl;
  runners = inl refl;
  stopped = λ k. (refl, refl);
}

step-Kept : {p : ThreadPool} {r : Outcome} → Step p r → Kept p r
unfolding stop
step-Kept {p} (runs task) = record {
  in_order = look_run-in_order p task;
  sound = λ h. look_run-Sound p task (record {
    bounded = h.bounded;
    takers = omega (arith, h.takers);
    runners = omega (arith, h.runners);
    stopped = h.stopped;
  });
}
step-Kept {p} (runs_on task n e) = record {
  in_order =
      look_run-in_order
        (record p { not_full = record { sleeping = p.not_full.sleeping; woken = n } }) task;
  sound = λ h. look_run-Sound _ task (record {
    bounded = h.bounded;
    takers = omega (arith, h.takers);
    runners = omega (arith, h.runners, e);
    stopped = h.stopped;
  });
}
step-Kept {p} takes = record {
  in_order = look_take-in_order p p.queue refl;
  sound = λ h. look_take-Sound p p.queue refl (record {
    bounded = h.bounded;
    takers = omega (arith, h.takers);
    runners = omega (arith, h.runners);
    stopped = h.stopped;
  });
}
step-Kept {p} (takes_on n e) = record {
  in_order =
      look_take-in_order
        (record p { not_empty = record { sleeping = p.not_empty.sleeping; woken = n } }) p.queue
        refl;
  sound = λ h. look_take-Sound _ p.queue refl (record {
    bounded = h.bounded;
    takers = omega (arith, h.takers, e);
    runners = omega (arith, h.runners);
    stopped = h.stopped;
  });
}
step-Kept {p} stops = record { in_order = append-nil p.queue; sound = stop-Sound p }
step-Kept {p} (wakes_for_room s e) = record {
  in_order = append-nil p.queue;
  sound = λ h. record {
    bounded = h.bounded;
    takers = h.takers;
    runners = omega (arith, h.runners, e);
    stopped = λ k. absurd (omega (arith, (h.stopped k).1, e));
  };
}
step-Kept {p} (wakes_for_task s e) = record {
  in_order = append-nil p.queue;
  sound = λ h. record {
    bounded = h.bounded;
    takers = omega (arith, h.takers, e);
    runners = h.runners;
    stopped = λ k. absurd (omega (arith, (h.stopped k).0, e));
  };
}

-- Whatever the threads do, the tasks that got into the queue are handed out in the order in which they
-- were put in, none is lost and none is handed out twice; and if before the run the queue kept to its
-- size, no thread waited for a task or for room that was there without as many threads woken for it,
-- and none waited if the pool had been stopped, then so it is afterwards.
pub tasks-Kept :
    (p : ThreadPool) (ins outs : List ℕ) (p' : ThreadPool)
    → Run p ins outs p'
    → (p.queue ++ ins ≡ outs ++ p'.queue) × (Sound p → Sound p')
tasks-Kept p _ _ _ end = (append-nil p.queue, λ s. s)
tasks-Kept p _ _ p' (steps {r = r} {ins = ins} {outs = outs} e run) =
    let k = step-Kept e in
    let rest = tasks-Kept r.state ins outs p' run in
    (
      sym (append_assoc p.queue r.ins ins)
          ∙ ap (λ xs. xs ++ ins) k.in_order
          ∙ append_assoc r.outs r.state.queue ins
          ∙ ap (λ xs. r.outs ++ xs) rest.0
          ∙ sym (append_assoc r.outs outs p'.queue),
      λ s. rest.1 (k.sound s),
    )
