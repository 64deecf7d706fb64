-- ===== src/TcpConnection/States.antt =====
-- net/TcpConnection.cc: the states of a connection, and what its user is told of them.
use mathlib.Core.Option.{some-injective}
use libanet.Common.{
  subst, ℕ, ◌≤◌, ◌≡◌, refl, ap, Bool, true, false, some, List, [], ◌∷◌, ◌++◌, arith, Bool-cases,
  inl, inr,
}
use libanet.Common.Options.{◌>>=◌}
use libanet.TcpConnection.{
  TcpConnection, StateE, disconnected, connecting, connected, disconnecting, WriteResult, wrote,
  failed, ReadResult, received, closed, read_failed, Functor, write_complete, high_water_mark,
  send_in_loop, shutdown_in_loop, force_close_in_loop, start_read_in_loop, stop_read_in_loop,
  force_close_after_delay, Call, connection, message, close, send_now, send, shutdown_now, shutdown,
  is_open, late_shutdown, late_force_close, late_force_close_with_delay, force_close,
  force_close_with_delay, handle_close, force_close_now, connect_established, connect_destroyed,
  handle_read, handle_write, run_functor, Event, establish, destroy, force, force_later, late_shuts,
  late_force, late_force_later, sends, shuts, readable, writable, runs, step,
}

-- The calls of connectionCallback_, oldest first: true for up, false for down.
abbrev pub told : List Call → List Bool
told [] = []
told (connection b ∷ rest) = b ∷ told rest
told (message ∷ rest) = told rest
told (close ∷ rest) = told rest

abbrev pub history : StateE → List Bool
history connecting = []
history connected = true ∷ []
history disconnecting = true ∷ []
history disconnected = true ∷ false ∷ []

-- The states in the order in which a connection goes through them.
abbrev pub stage : StateE → ℕ
stage connecting = 0
stage connected = 1
stage disconnecting = 2
stage disconnected = 3

told-append : (xs ys : List Call) → told (xs ++ ys) ≡ told xs ++ told ys
told-append [] ys = refl
told-append (connection b ∷ xs) ys = ap (◌∷◌ b) (told-append xs ys)
told-append (message ∷ xs) ys = told-append xs ys
told-append (close ∷ xs) ys = told-append xs ys

-- The user has been told of the state.
abbrev pub IsTold : TcpConnection → Type 0
IsTold c = told c.calls ≡ history c.state

-- From `c` to `d` the state does not go back, and the user stays told of it.
pub record Advances (c d : TcpConnection) : Type 0 where
  pub forward : stage c.state ≤ stage d.state
  pub telling : IsTold c → IsTold d

-- A handler that leaves the state and the calls.
quiet : {c d : TcpConnection} → d.state ≡ c.state → d.calls ≡ c.calls → Advances c d
quiet s k = record { forward = rw s (omega arith); telling = λ t. rw (s, k) t }

send_now-quiet :
    (c d : TcpConnection) (bytes : List ℕ) (r : WriteResult)
    → send_now c bytes r ≡ some d
    → (d.state ≡ c.state) × (d.calls ≡ c.calls)
unfolding send_now
send_now-quiet c d bytes (wrote n) e = ground arith
send_now-quiet c d bytes (failed x) e = ground arith

same-Advances : (c : TcpConnection) → Advances c c
same-Advances c = quiet refl refl

send-Advances :
    (c d : TcpConnection) (b : Bool) (bytes : List ℕ) (r : WriteResult)
    → send c b bytes r ≡ some d
    → Advances c d
unfolding send
send-Advances c d b bytes r e =
    let (s, k) : (d.state ≡ c.state) × (d.calls ≡ c.calls) =
      ground (arith, send_now-quiet c d bytes r) in
    quiet s k

handle_close-Advances : (c d : TcpConnection) → handle_close c ≡ some d → Advances c d
unfolding handle_close
handle_close-Advances c d e = record {
  forward = ground arith;
  telling = λ t. ground (
    arith,
    told-append c.calls (connection false ∷ []),
    told-append (c.calls ++ connection false ∷ []) (close ∷ []),
  );
}

connect_established-Advances : (c d : TcpConnection) → connect_established c ≡ some d → Advances c d
unfolding connect_established
connect_established-Advances c d e = record {
  forward = ground arith;
  telling = λ t. ground (arith, told-append c.calls (connection true ∷ []));
}

connect_destroyed-Advances : (c d : TcpConnection) → connect_destroyed c ≡ some d → Advances c d
unfolding connect_destroyed
connect_destroyed-Advances c d e = record {
  forward = ground arith;
  telling = λ t. ground (arith, told-append c.calls (connection false ∷ []));
}

shutdown-Advances : (c : TcpConnection) → Advances c (shutdown c)
unfolding shutdown shutdown_now
shutdown-Advances c = record { forward = ground arith; telling = λ t. ground arith }

late_shutdown-Advances : (c : TcpConnection) → is_open c ≡ true → Advances c (late_shutdown c)
unfolding late_shutdown
late_shutdown-Advances c up = record { forward = ground arith; telling = λ t. ground arith }

late_force_close-Advances : (c : TcpConnection) → is_open c ≡ true → Advances c (late_force_close c)
unfolding late_force_close
late_force_close-Advances c up = record { forward = ground arith; telling = λ t. ground arith }

late_force_close_with_delay-Advances :
    (c : TcpConnection) → is_open c ≡ true → Advances c (late_force_close_with_delay c)
unfolding late_force_close_with_delay
late_force_close_with_delay-Advances c up = record {
  forward = ground arith;
  telling = λ t. ground arith;
}

force_close-Advances : (c : TcpConnection) → Advances c (force_close c)
unfolding force_close
force_close-Advances c = elim (Bool-cases (is_open c)) [
  | inl up ↦ rw up (late_force_close-Advances c up)
  | inr down ↦ rw down (same-Advances c)
]

force_close_with_delay-Advances : (c : TcpConnection) → Advances c (force_close_with_delay c)
unfolding force_close_with_delay
force_close_with_delay-Advances c = elim (Bool-cases (is_open c)) [
  | inl up ↦ rw up (late_force_close_with_delay-Advances c up)
  | inr down ↦ rw down (same-Advances c)
]

handle_read-Advances :
    (c d : TcpConnection) (r : ReadResult) → handle_read c r ≡ some d → Advances c d
unfolding handle_read
handle_read-Advances c d (received b) e = record {
  forward = ground arith;
  telling = λ t. ground (arith, told-append c.calls (message ∷ []));
}
handle_read-Advances c d closed e = handle_close-Advances c d e
handle_read-Advances c d read_failed e = quiet (ground arith) (ground arith)

handle_write-quiet :
    (c d : TcpConnection) (r : WriteResult)
    → handle_write c r ≡ some d
    → (d.state ≡ c.state) × (d.calls ≡ c.calls)
unfolding handle_write
handle_write-quiet c d (wrote n) e = ground arith
handle_write-quiet c d (failed x) e = ground arith

force_close_now-Advances : (c d : TcpConnection) → force_close_now c ≡ some d → Advances c d
unfolding force_close_now
force_close_now-Advances c d e = record {
  forward = ground arith;
  telling = λ t. ground (
    arith,
    told-append c.calls (connection false ∷ []),
    told-append (c.calls ++ connection false ∷ []) (close ∷ []),
  );
}

run_functor-Advances :
    (c d : TcpConnection) (f : Functor) (r : WriteResult)
    → run_functor c f r ≡ some d
    → Advances c d
unfolding run_functor
run_functor-Advances c d write_complete r e = quiet (ground arith) (ground arith)
run_functor-Advances c d (high_water_mark n) r e = quiet (ground arith) (ground arith)
run_functor-Advances c d (send_in_loop bytes) r e =
    let (s, k) = send_now-quiet c d bytes r e in quiet s k
run_functor-Advances c d shutdown_in_loop r e = quiet (ground arith) (ground arith)
run_functor-Advances c d force_close_in_loop r e = force_close_now-Advances c d e
run_functor-Advances c d start_read_in_loop r e = quiet (ground arith) (ground arith)
run_functor-Advances c d stop_read_in_loop r e = quiet (ground arith) (ground arith)
run_functor-Advances c d force_close_after_delay r e = record {
  forward = ground arith;
  telling = λ t. ground arith;
}

Advances-some : {c x d : TcpConnection} → some x ≡ some d → Advances c x → Advances c d
Advances-some {c} {x} {d} h a = subst (Advances c) (some-injective x d h) a

-- What another thread read of the state still holds, or the connection is closing since: it is not
-- closed.
abbrev pub IsInTime : TcpConnection → Event → Type 0
IsInTime c late_shuts = is_open c ≡ true
IsInTime c late_force = is_open c ≡ true
IsInTime c late_force_later = is_open c ≡ true
IsInTime c _ = Unit

-- No step takes the state back in the order connecting, connected, disconnecting, disconnected, and
-- each keeps the user told of it: once up when the connection is established, once down when it ends,
-- and never otherwise. The steps are those of the loop's thread, the sends of other threads, and those
-- with which a shutdown, a forceClose or a forceCloseWithDelay in another thread goes on after its test
-- of the state, provided that the connection has not been closed in between.
pub step-Advances :
    (c d : TcpConnection) (e : Event) → IsInTime c e → step c e ≡ some d → Advances c d
unfolding step
step-Advances c d establish u h = connect_established-Advances c d h
step-Advances c d destroy u h = connect_destroyed-Advances c d h
step-Advances c d shuts u h = Advances-some h (shutdown-Advances c)
step-Advances c d force u h = Advances-some h (force_close-Advances c)
step-Advances c d force_later u h = Advances-some h (force_close_with_delay-Advances c)
step-Advances c d late_shuts u h = Advances-some h (late_shutdown-Advances c u)
step-Advances c d late_force u h = Advances-some h (late_force_close-Advances c u)
step-Advances c d late_force_later u h = Advances-some h (late_force_close_with_delay-Advances c u)
step-Advances c d (sends b bytes r) u h = send-Advances c d b bytes r h
step-Advances c d (readable r) u h = handle_read-Advances c d r h
step-Advances c d (writable r) u h = let (s, k) = handle_write-quiet c d r h in quiet s k
step-Advances c d (runs f r) u h = run_functor-Advances c d f r h

told_down_twice :
    (xs : List Call)
    → told (
        ((xs ++ (connection false ∷ [])) ++ (close ∷ []))
        ++ (connection false ∷ [])
        ++ (close ∷ []))
      ≡ told xs ++ (false ∷ false ∷ [])
told_down_twice [] = refl
told_down_twice (connection b ∷ xs) = ap (◌∷◌ b) (told_down_twice xs)
told_down_twice (message ∷ xs) = told_down_twice xs
told_down_twice (close ∷ xs) = told_down_twice xs

-- The race of forceClose: when its test of the state succeeds in another thread, and the loop's thread
-- then handles the end of the stream before the other goes on, the functor that is queued takes the
-- connection down again, so that the user is told twice that it is down.
pub late_force_close-told_twice :
    (c : TcpConnection) (r : WriteResult)
    → is_open c ≡ true
    → (step c (readable closed) >>= λ c₁. step c₁ late_force >>= λ c₂.
        step c₂ (runs force_close_in_loop r) >>= λ d. some (told d.calls))
      ≡ some (told c.calls ++ (false ∷ false ∷ []))
unfolding step handle_read handle_close late_force_close run_functor force_close_now
late_force_close-told_twice c r up = rw up (ap some (told_down_twice c.calls))
