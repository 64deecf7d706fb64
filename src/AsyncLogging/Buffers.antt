-- ===== src/AsyncLogging/Buffers.antt =====
-- The invariant of the buffers of base/AsyncLogging.cc, and `append`.
use libanet.Common.{
  ℕ, ◌+◌, ◌-◌, ◌≤◌, ◌<◌, ◌≡◌, ◌⊎◌, inl, inr, refl, sym, ap, ◌∙◌, true, Option, none, some, List, [],
  ◌∷◌, ◌++◌, length, length-append, arith, Bool-cases, ltb→lt, lt→ltb,
}
use libanet.Common.Int.{pos, ltb_ℤ}
use libanet.LogStream.{large_buffer}
use libanet.LogStream.Lines.{append_if, avail-room}
use libanet.AsyncLogging.{
  Place, tests, waits, writes, finished, AsyncLogging, large, append_line, has_room, next_or_new,
  append,
}

-- A buffer with room takes the whole line.
append_line_fits :
    (text line : List ℕ)
    → length text < large_buffer
    → length text + length line < large_buffer
    → append_line text line ≡ text ++ line
unfolding append_line
append_line_fits text line w h =
    ap (λ b. b.text) (append_if (large text) line w)
    ∙ rw (lt→ltb (length line) (large_buffer - length text) (omega arith)) refl

has_room_fits :
    (text line : List ℕ)
    → length text < large_buffer
    → has_room text line ≡ true
    → length text + length line < large_buffer
has_room_fits text line w h =
    let room =
      ltb→lt (length line + 0) (large_buffer - length text + 0)
        (sym (ap (λ a. ltb_ℤ (pos (length line)) a) (avail-room (large text) w)) ∙ h) in
    omega arith

-- The second buffer is empty, or it is in use and so is another one.
abbrev pub IsSpare : Option (List ℕ) → List (List ℕ) → ℕ → Type 0
IsSpare p others least = (p ≡ some []) ⊎ ((p ≡ none) × (least ≤ length others))

-- What the thread that writes has, at each place: its two buffers, and those that it took.
abbrev pub Holds : Place → Option (List ℕ) → Option (List ℕ) → List (List ℕ) → Type 0
Holds tests p q taken = (p ≡ some []) × (q ≡ some []) × (taken ≡ [])
Holds waits p q taken = (p ≡ some []) × (q ≡ some []) × (taken ≡ [])
Holds writes p q taken = (p ≡ none) × (0 < length taken) × IsSpare q taken 2
Holds finished p q taken = Unit

-- There is a current buffer that is not full, and the next one is there if no buffer waits.
pub record Inv (l : AsyncLogging) : Type 0 where
  pub current : List ℕ
  pub has_current : l.current_buffer ≡ some current
  pub within : length current < large_buffer
  pub next : IsSpare l.next_buffer l.buffers 1
  pub thread : Holds l.place l.new_buffer_1 l.new_buffer_2 l.buffers_to_write

next_or_new-empty :
    (p : Option (List ℕ)) (others : List (List ℕ)) (n : ℕ) → IsSpare p others n → next_or_new p ≡ []
next_or_new-empty p others n (inl e) = ap next_or_new e
next_or_new-empty p others n (inr e) = ap next_or_new e.0

-- The states after `append`, with the line in the current buffer, or in the next one
abbrev pub lengthened : AsyncLogging → List ℕ → AsyncLogging
lengthened l text = record l { current_buffer = some text }

abbrev pub turned : AsyncLogging → List ℕ → List ℕ → AsyncLogging
turned l current line = record l {
  buffers = l.buffers ++ (current ∷ []);
  current_buffer = some line;
  next_buffer = none;
}

pub append-cases :
    (l : AsyncLogging) (line : List ℕ) (v : Inv l)
    → length line < large_buffer
    → ((append l line ≡ some (lengthened l (v.current ++ line)))
        × Inv (lengthened l (v.current ++ line)))
      ⊎ ((append l line ≡ some (turned l v.current line)) × Inv (turned l v.current line))
unfolding append
append-cases l line v short = elim (Bool-cases (has_room v.current line)) [
  | inl room ↦
      let fits = has_room_fits v.current line v.within room in
      inl (
        rw (v.has_current, room, append_line_fits v.current line v.within fits) refl,
        record {
          current = v.current ++ line;
          has_current = refl;
          within = omega (arith, length-append v.current line, fits);
          next = v.next;
          thread = v.thread;
        },
      )
  | inr full ↦ inr (
    rw
        (
          v.has_current,
          full,
          next_or_new-empty l.next_buffer l.buffers 1 v.next,
          append_line_fits [] line (omega arith) (omega (arith, short)),
        )
        refl,
    record {
      current = line;
      has_current = refl;
      within = short;
      next = inr (refl, omega (arith, length-append l.buffers (v.current ∷ [])));
      thread = v.thread;
    },
  )
]
