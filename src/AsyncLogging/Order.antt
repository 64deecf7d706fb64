-- ===== src/AsyncLogging/Order.antt =====
-- Runs of base/AsyncLogging.cc, and the order of the lines.
use libanet.Common.{
  ℕ, ◌≤◌, ◌<◌, ◌≡◌, inl, inr, refl, sym, ap, ◌∙◌, false, Option, none, some, List, [], ◌∷◌, ◌++◌,
  length, arith,
}
use mathlib.Core.List.{append-nil, append_assoc}
use mathlib.Core.Option.{some-injective}
use libanet.Common.Options.{◌>>=◌}
use libanet.LogStream.{large_buffer}
use libanet.AsyncLogging.{
  Place, tests, waits, writes, finished, AsyncLogging, append, begin_loop, exchange, append_all,
  write_buffers, Event, logs, stops, goes_on, go_on, step, run,
}
use libanet.AsyncLogging.Buffers.{Inv, lengthened, turned, append-cases}
use libanet.AsyncLogging.Writer.{
  begin_loop-Inv, exchanged, exchange-Inv, written, shortened, write_buffers-cases,
}

abbrev pub joined : List (List ℕ) → List ℕ
joined [] = []
joined (x ∷ xs) = x ++ joined xs

abbrev text_of : Option (List ℕ) → List ℕ
text_of none = []
text_of (some text) = text

-- What the log file got and what is still to come, in order.
abbrev pub logged : AsyncLogging → List ℕ
logged l = l.output ++ joined l.buffers_to_write ++ joined l.buffers ++ text_of l.current_buffer

-- The lines of a run, joined.
abbrev pub lines : List Event → List ℕ
lines [] = []
lines (logs line ∷ events) = line ++ lines events
lines (stops ∷ events) = lines events
lines (goes_on note ∷ events) = lines events

-- A line fits into an empty buffer.
abbrev pub IsShort : Event → Type 0
IsShort (logs line) = length line < large_buffer
IsShort stops = Unit
IsShort (goes_on note) = Unit

abbrev pub AllShort : List Event → Type 0
AllShort [] = Unit
AllShort (e ∷ events) = IsShort e × AllShort events

joined-snoc : (xs : List (List ℕ)) (x : List ℕ) → joined (xs ++ (x ∷ [])) ≡ joined xs ++ x
joined-snoc [] x = append-nil x
joined-snoc (y ∷ xs) x = ap (λ z. y ++ z) (joined-snoc xs x) ∙ sym (append_assoc y (joined xs) x)

append_all-joined :
    (output : List ℕ) (xs : List (List ℕ)) → append_all output xs ≡ output ++ joined xs
unfolding append_all
append_all-joined output [] = sym (append-nil output)
append_all-joined output (x ∷ xs) =
    append_all-joined (output ++ x) xs ∙ append_assoc output x (joined xs)

-- What a step leaves
pub record Went (l : AsyncLogging) (text : List ℕ) (r : Option AsyncLogging) : Type 0 where
  pub state : AsyncLogging
  pub returns : r ≡ some state
  pub inv : Inv state
  pub no_fewer : l.dropped ≤ state.dropped
  pub in_order : state.dropped ≡ l.dropped → logged state ≡ logged l ++ text

append-Went :
    (l : AsyncLogging) (line : List ℕ)
    → Inv l
    → length line < large_buffer
    → Went l line (append l line)
append-Went l line v short = elim (append-cases l line v short) [
  | inl a ↦ record {
    state = lengthened l (v.current ++ line);
    returns = a.0;
    inv = a.1;
    no_fewer = omega arith;
    in_order = λ h. rw v.has_current (simp (append_assoc));
  }
  | inr a ↦ record {
    state = turned l v.current line;
    returns = a.0;
    inv = a.1;
    no_fewer = omega arith;
    in_order = λ h. rw v.has_current (rw (joined-snoc l.buffers v.current) (simp (append_assoc)));
  }
]

exchange-Went : (l : AsyncLogging) → l.place ≡ waits → Inv l → Went l [] (exchange l)
exchange-Went l h v =
    let e = exchange-Inv l h v in
    record {
      state = exchanged l v.current;
      returns = e.1;
      inv = e.2;
      no_fewer = omega arith;
      in_order = λ k.
          rw (v.has_current, e.0)
            (rw (joined-snoc l.buffers v.current) (simp (append_assoc, append-nil)));
    }

begin_loop-Went : (l : AsyncLogging) → l.place ≡ tests → Inv l → Went l [] (begin_loop l)
begin_loop-Went l h v =
    let b = begin_loop-Inv l h v in
    record {
      state = record l { place = b.0 };
      returns = b.1;
      inv = b.2;
      no_fewer = omega arith;
      in_order = λ k. sym (append-nil (logged l));
    }

write_buffers-Went :
    (l : AsyncLogging) (note : List ℕ) → l.place ≡ writes → Inv l → Went l [] (write_buffers l note)
write_buffers-Went l note h v = elim (write_buffers-cases l note h v) [
  | inl w ↦ record {
    state = written l;
    returns = w.0;
    inv = w.1;
    no_fewer = omega arith;
    in_order = λ k. rw (append_all-joined l.output l.buffers_to_write) (simp (append-nil));
  }
  | inr w ↦ record {
    state = written (shortened l note);
    returns = w.1;
    inv = w.2;
    no_fewer = omega arith;
    in_order = λ k. absurd (omega (arith, k, w.0));
  }
]

go_on-Went :
    (p : Place) (l : AsyncLogging) (note : List ℕ)
    → l.place ≡ p
    → Inv l
    → Went l [] (go_on p l note)
unfolding go_on
go_on-Went tests l note h v = begin_loop-Went l h v
go_on-Went waits l note h v = exchange-Went l h v
go_on-Went writes l note h v = write_buffers-Went l note h v
go_on-Went finished l note h v = record {
  state = l;
  returns = refl;
  inv = v;
  no_fewer = omega arith;
  in_order = λ k. sym (append-nil (logged l));
}

stops-Went : (l : AsyncLogging) → Inv l → Went l [] (some (record l { running = false }))
stops-Went l v = record {
  state = record l { running = false };
  returns = refl;
  inv = record {
    current = v.current;
    has_current = v.has_current;
    within = v.within;
    next = v.next;
    thread = v.thread;
  };
  no_fewer = omega arith;
  in_order = λ k. sym (append-nil (logged l));
}

-- One step after another
then-Went :
    {l : AsyncLogging} {text more : List ℕ} {r : Option AsyncLogging}
    (f : AsyncLogging → Option AsyncLogging) (w : Went l text r)
    → Went w.state more (f w.state)
    → Went l (text ++ more) (r >>= f)
then-Went {l} {text} {more} {r} f w w' = record {
  state = w'.state;
  returns = rw w.returns w'.returns;
  inv = w'.inv;
  no_fewer = omega (arith, w.no_fewer, w'.no_fewer);
  in_order = λ h.
      w'.in_order (omega (arith, h, w.no_fewer, w'.no_fewer))
      ∙ ap (λ xs. xs ++ more) (w.in_order (omega (arith, h, w.no_fewer, w'.no_fewer)))
      ∙ append_assoc (logged l) text more;
}

events-Went :
    (l : AsyncLogging) (events : List Event)
    → Inv l
    → AllShort events
    → Went l (lines events) (run l events)
unfolding run step
events-Went l [] v k = record {
  state = l;
  returns = refl;
  inv = v;
  no_fewer = omega arith;
  in_order = λ h. sym (append-nil (logged l));
}
events-Went l (logs line ∷ events) v k =
    let w = append-Went l line v k.0 in
    then-Went (λ s. run s events) w (events-Went w.state events w.inv k.1)
events-Went l (stops ∷ events) v k =
    let w = stops-Went l v in then-Went (λ s. run s events) w (events-Went w.state events w.inv k.1)
events-Went l (goes_on note ∷ events) v k =
    let w = go_on-Went l.place l note refl v in
    then-Went (λ s. run s events) w (events-Went w.state events w.inv k.1)

-- From the invariant, no run of threads that log lines shorter than a buffer, of calls of stop and of
-- steps of the thread that writes, makes an assert fail or reads a null pointer, and the invariant
-- holds at its end.
pub events-Inv :
    (l : AsyncLogging) (events : List Event)
    → Inv l
    → AllShort events
    → (l' : AsyncLogging) × (run l events ≡ some l') × Inv l'
events-Inv l events v k = let w = events-Went l events v k in (w.state, w.returns, w.inv)

-- From the invariant, in a run of threads that log lines shorter than a buffer, of calls of stop and of
-- steps of the thread that writes, in which no buffers are dropped, what the log file gets and what is
-- still in the buffers is in the end what it was at the beginning, followed by the lines in the order in
-- which they were logged.
pub events-in_order :
    (l : AsyncLogging) (events : List Event) (l' : AsyncLogging)
    → Inv l
    → AllShort events
    → run l events ≡ some l'
    → l'.dropped ≡ l.dropped
    → logged l' ≡ logged l ++ lines events
events-in_order l events l' v k h same =
    let w = events-Went l events v k in
    let e : w.state ≡ l' = some-injective w.state l' (sym w.returns ∙ h) in
    ap logged (sym e) ∙ w.in_order (ap (λ s. s.dropped) e ∙ same)
