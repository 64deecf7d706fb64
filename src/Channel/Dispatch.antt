-- ===== src/Channel/Dispatch.antt =====
-- net/Channel.cc: which callbacks an event calls.
use Prim.Native.Nat.{bit_or}
use libanet.Common.{
  ℕ, suc, ◌≡◌, refl, inl, inr, Bool, true, false, not, ◌&&◌, ◌||◌, ◌<◌, List, [], ◌∷◌, ◌++◌, arith,
  Bool-cases, if◌then◌else◌,
}
use libanet.Channel.{
  Channel, Callback, Handlers, on_close, on_error, on_read, on_write, has, pollin, pollpri, pollout,
  pollerr, pollhup, pollnval, pollrdhup, call_if, handle_event_with_guard, handle_event,
}

-- How often a callback is called.
abbrev same : Callback → Callback → Bool
same on_close on_close = true
same on_error on_error = true
same on_read on_read = true
same on_write on_write = true
same _ _ = false

unfoldable pub times : Callback → List Callback → ℕ
times c [] = 0
times c (d ∷ rest) = if same c d then suc (times c rest) else times c rest

abbrev once_if : Bool → ℕ
once_if b = if b then 1 else 0

-- The events that a callback answers, and whether the owner has set it.
abbrev pub wants : Handlers → ℕ → Callback → Bool
wants h e on_close = (has e pollhup && not (has e pollin)) && h.close_set
wants h e on_error = has e (bit_or pollerr pollnval) && h.error_set
wants h e on_read = has e (bit_or (bit_or pollin pollpri) pollrdhup) && h.read_set
wants h e on_write = has e pollout && h.write_set

times-handle_event_with_guard :
    (h : Handlers) (e : ℕ) (c : Callback)
    → times c (handle_event_with_guard h e) ≡ once_if (wants h e c)
unfolding times handle_event_with_guard
times-handle_event_with_guard h e on_close = ground arith
times-handle_event_with_guard h e on_error = ground arith
times-handle_event_with_guard h e on_read = ground arith
times-handle_event_with_guard h e on_write = ground arith

-- Whether a channel may still deliver events: it is not tied, or its owner can be locked.
abbrev pub reachable : Channel → Bool → Bool
reachable c alive = not c.tied || alive

-- Each callback is called once if its events came, it is set and the channel is not tied to an
-- owner that is gone, and not at all otherwise.
pub times-handle_event :
    (h : Handlers) (c : Channel) (alive : Bool) (cb : Callback)
    → times cb (handle_event h c alive) ≡ once_if (reachable c alive && wants h c.revents cb)
unfolding handle_event times
times-handle_event h c alive cb = elim (Bool-cases c.tied) [
  | inl tied ↦ elim (Bool-cases alive) [
    | inl there ↦ rw (tied, there) (times-handle_event_with_guard h c.revents cb)
    | inr gone ↦ rw (tied, gone) refl
  ]
  | inr free ↦ rw free (times-handle_event_with_guard h c.revents cb)
]

abbrev pub rank : Callback → ℕ
rank on_close = 0
rank on_error = 1
rank on_read = 2
rank on_write = 3

abbrev pub InOrder : List Callback → Type 0
InOrder [] = Unit
InOrder (x ∷ []) = Unit
InOrder (x ∷ y ∷ rest) = (rank x < rank y) × InOrder (y ∷ rest)

four_calls :
    (a b c d : Bool)
    → InOrder
        (call_if a on_close ++ (call_if b on_error ++ (call_if c on_read ++ call_if d on_write)))
four_calls true true true true = omega arith
four_calls true true true false = omega arith
four_calls true true false true = omega arith
four_calls true true false false = omega arith
four_calls true false true true = omega arith
four_calls true false true false = omega arith
four_calls true false false true = omega arith
four_calls true false false false = tt
four_calls false true true true = omega arith
four_calls false true true false = omega arith
four_calls false true false true = omega arith
four_calls false true false false = tt
four_calls false false true true = omega arith
four_calls false false true false = tt
four_calls false false false true = tt
four_calls false false false false = tt

-- Callbacks come in the order of closing, errors, reading and writing.
pub handle_event-InOrder :
    (h : Handlers) (c : Channel) (alive : Bool) → InOrder (handle_event h c alive)
unfolding handle_event
handle_event-InOrder h c alive = elim (Bool-cases c.tied) [
  | inl tied ↦ elim (Bool-cases alive) [
    | inl there ↦ rw (tied, there) (four_calls _ _ _ _)
    | inr gone ↦ rw (tied, gone) tt
  ]
  | inr free ↦ rw free (four_calls _ _ _ _)
]
