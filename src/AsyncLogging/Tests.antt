-- ===== src/AsyncLogging/Tests.antt =====
-- Two threads that log and the thread that writes, and the theorems on them.
use libanet.Common.{
  ℕ, ◌≡◌, refl, inl, Bool, true, false, Option, none, some, List, [], ◌∷◌, ◌++◌, arith,
}
use libanet.AsyncLogging.{
  AsyncLogging, tests, create, Event, logs, stops, goes_on, run, begin_loop, exchange, append_all,
  drop_buffers, refill, write_buffers, append_line,
}
use libanet.AsyncLogging.Buffers.{Inv}
use libanet.AsyncLogging.Order.{logged, lines, AllShort, events-Inv, events-in_order}

abbrev events : List Event
events =
    logs (1 ∷ 2 ∷ [])
    ∷ goes_on []
    ∷ logs (3 ∷ [])
    ∷ goes_on []
    ∷ logs (4 ∷ [])
    ∷ goes_on []
    ∷ stops
    ∷ goes_on []
    ∷ []

abbrev after : AsyncLogging
after = record create {
  running = false;
  place = libanet.AsyncLogging.finished;
  current_buffer = some (4 ∷ []);
  output = 1 ∷ 2 ∷ 3 ∷ [];
}

-- The last line stays in the buffer.
ends : run create events ≡ some after
unfolding run begin_loop exchange write_buffers append_line libanet.LogStream.append
    libanet.Common.Int.◌-ℤ◌
ends = refl

create-Inv : Inv create
create-Inv = record {
  current = [];
  has_current = refl;
  within = omega arith;
  next = inl refl;
  thread = (refl, refl, refl);
}

events-AllShort : AllShort events
events-AllShort = (omega arith, (tt, (omega arith, (tt, (omega arith, (tt, (tt, (tt, tt))))))))

events-Inv_example : (l' : AsyncLogging) × (run create events ≡ some l') × Inv l'
events-Inv_example = events-Inv create events create-Inv events-AllShort

events-in_order_example : logged after ≡ logged create ++ lines events
events-in_order_example = events-in_order create events after create-Inv events-AllShort ends refl
