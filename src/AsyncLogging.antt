-- ===== src/AsyncLogging.antt =====
-- base/AsyncLogging.h and base/AsyncLogging.cc: the exchange of buffers between the threads that log
-- and the thread that writes. A buffer of kLargeBuffer bytes is the text in it, a unique_ptr that was
-- moved from is `none`, and the log file is the bytes that it was given. An operation is `none` if an
-- assert fails or a null pointer is read.
mod Buffers
mod Writer
mod Order
mod Tests
use libanet.Common.{
  ℕ, zero, suc, ◌+◌, ◌-◌, Bool, true, false, Option, none, some, List, [], ◌∷◌, ◌++◌, length, take,
  ◌==◌, ltb, if◌then◌else◌,
}
use libanet.Common.Int.{pos, ltb_ℤ}
use libanet.Common.Options.{◌>>=◌, ◌>>◌, check}
use libanet.LogStream.{FixedBuffer, large_buffer, avail}

-- Where the thread stands in threadFunc: at the test of running_, at the mutex or in the wait, after
-- the exchange, or at its end.
pub data Place : Type 0 where
  tests waits writes finished : Place

-- `dropped` counts the buffers that were thrown away.
pub record AsyncLogging : Type 0 where
  pub running : Bool
  pub current_buffer : Option (List ℕ)
  pub next_buffer : Option (List ℕ)
  pub buffers : List (List ℕ)
  pub place : Place
  pub new_buffer_1 : Option (List ℕ)
  pub new_buffer_2 : Option (List ℕ)
  pub buffers_to_write : List (List ℕ)
  pub output : List ℕ
  pub dropped : ℕ

-- Once it is started
abbrev pub create : AsyncLogging
create = record {
  running = true;
  current_buffer = some [];
  next_buffer = some [];
  buffers = [];
  place = tests;
  new_buffer_1 = some [];
  new_buffer_2 = some [];
  buffers_to_write = [];
  output = [];
  dropped = 0;
}

-- FixedBuffer<kLargeBuffer>
abbrev pub large : List ℕ → FixedBuffer
large text = record { size = large_buffer; text = text }

unfoldable pub append_line : List ℕ → List ℕ → List ℕ
append_line text line = (libanet.LogStream.append (large text) line).text

-- currentBuffer_->avail() > len
abbrev pub has_room : List ℕ → List ℕ → Bool
has_room text line = ltb_ℤ (pos (length line)) (avail (large text))

-- nextBuffer_, or a new buffer
abbrev pub next_or_new : Option (List ℕ) → List ℕ
next_or_new none = []
next_or_new (some text) = text

unfoldable pub append : AsyncLogging → List ℕ → Option AsyncLogging
unfolding append_line
append l line = do
  current ← l.current_buffer
  some (
      if has_room current line
      then record l { current_buffer = some (append_line current line) }
      else record l {
        buffers = l.buffers ++ (current ∷ []);
        current_buffer = some (append_line (next_or_new l.next_buffer) line);
        next_buffer = none;
      })

abbrev pub is_empty_buffer : Option (List ℕ) → Bool
is_empty_buffer none = false
is_empty_buffer (some text) = length text == 0

-- The test of running_, and the asserts at the beginning of the loop.
unfoldable pub begin_loop : AsyncLogging → Option AsyncLogging
begin_loop l =
    if l.running
    then (do
      check (is_empty_buffer l.new_buffer_1)
      check (is_empty_buffer l.new_buffer_2)
      check (length l.buffers_to_write == 0)
      some (record l { place = waits }))
    else some (record l { place = finished })

-- What `p` is after `if (!p) p = std::move(q)`, and q after it.
abbrev pub filled : Option (List ℕ) → Option (List ℕ) → Option (List ℕ)
filled none q = q
filled (some text) q = some text

abbrev pub left_over : Option (List ℕ) → Option (List ℕ) → Option (List ℕ)
left_over none q = none
left_over (some text) q = q

-- The block that holds the mutex, after the wait, and the assert behind it.
unfoldable pub exchange : AsyncLogging → Option AsyncLogging
exchange l = do
  current ← l.current_buffer
  let taken = l.buffers ++ (current ∷ [])
  check (ltb 0 (length taken))
  some (record l {
    place = writes;
    buffers = l.buffers_to_write;
    current_buffer = l.new_buffer_1;
    new_buffer_1 = none;
    buffers_to_write = taken;
    next_buffer = filled l.next_buffer l.new_buffer_2;
    new_buffer_2 = left_over l.next_buffer l.new_buffer_2;
  })

unfoldable pub append_all : List ℕ → List (List ℕ) → List ℕ
append_all output [] = output
append_all output (text ∷ texts) = append_all (output ++ text) texts

-- More than 25 buffers are dropped but for the first two, with a note.
unfoldable pub drop_buffers : AsyncLogging → List ℕ → AsyncLogging
drop_buffers l note =
    if ltb 25 (length l.buffers_to_write)
    then record l {
      output = l.output ++ note;
      buffers_to_write = take 2 l.buffers_to_write;
      dropped = l.dropped + (length l.buffers_to_write - 2);
    }
    else l

-- std::move of back(), and pop_back
abbrev pub pop_last : List (List ℕ) → Option (List (List ℕ))
pop_last [] = none
pop_last (x ∷ xs) = some (take (length xs) (x ∷ xs))

-- `if (!p)`, the last buffer of those that were written is reset and becomes p.
unfoldable pub refill : Option (List ℕ) → List (List ℕ) → Option (Option (List ℕ) × List (List ℕ))
refill (some text) written = some (some text, written)
refill none written = do rest ← pop_last written; some (some [], rest)

-- From the assert to the end of the loop
unfoldable pub write_buffers : AsyncLogging → List ℕ → Option AsyncLogging
unfolding append_all drop_buffers refill
write_buffers l note = do
  let l' = drop_buffers l note
  let output = append_all l'.output l'.buffers_to_write
  (new_buffer_1, rest_1) ← refill l'.new_buffer_1 (take 2 l'.buffers_to_write)
  (new_buffer_2, rest_2) ← refill l'.new_buffer_2 rest_1
  some (record l' {
    place = tests;
    output = output;
    new_buffer_1 = new_buffer_1;
    new_buffer_2 = new_buffer_2;
    buffers_to_write = [];
  })

-- A thread logs a line, a thread calls stop, or the thread that writes goes on; its note, in case it
-- drops buffers, is an argument.
pub data Event : Type 0 where
  logs : List ℕ → Event
  stops : Event
  goes_on : List ℕ → Event

unfoldable pub go_on : Place → AsyncLogging → List ℕ → Option AsyncLogging
unfolding begin_loop exchange write_buffers
go_on tests l note = begin_loop l
go_on waits l note = exchange l
go_on writes l note = write_buffers l note
go_on finished l note = some l

unfoldable pub step : AsyncLogging → Event → Option AsyncLogging
unfolding append go_on
step l (logs line) = append l line
step l stops = some (record l { running = false })
step l (goes_on note) = go_on l.place l note

unfoldable pub run : AsyncLogging → List Event → Option AsyncLogging
unfolding step
run l [] = some l
run l (e ∷ events) = do l' ← step l e; run l' events
