-- ===== src/TcpConnection/Send.antt =====
-- net/TcpConnection.cc: sendInLoop keeps the order of the bytes.
use mathlib.Core.List.{append-nil, append_assoc}
use libanet.Common.{
  ℕ, ◌+◌, ◌-◌, ◌≤◌, ◌≡◌, refl, sym, ap, ◌∙◌, inl, inr, Bool, true, false, not, ◌&&◌, ◌||◌, some,
  List, [], ◌∷◌, ◌++◌, length, take, drop, ◌==◌, le→leb, arith, Bool-cases, if◌then◌else◌,
  take-append-drop, length-drop,
}
use libanet.Buffer.{cheap_prepend, readable_bytes}
use libanet.Channel.{is_writing}
use libanet.TcpConnection.{
  TcpConnection, disconnected, is_state, WriteResult, wrote, failed, is_fault, buffer_rest,
  after_write, send_now, enqueue_if, write_complete,
}
use libanet.TcpConnection.Output.{
  output, sent, is_empty, Inv, HasRoom, Buffered-sent, Buffered-Inv, buffer_rest-Buffered,
  readable-is_empty,
}

-- write(2) takes no more bytes than it is given.
abbrev pub IsAnswer : WriteResult → ℕ → Type 0
IsAnswer (wrote n) len = n ≤ len
IsAnswer (failed e) len = Unit

-- Whether sendInLoop tries to write at once.
abbrev pub writes_at_once : TcpConnection → Bool
writes_at_once c = not (is_writing c.channel) && is_empty (output c)

abbrev pub broken : WriteResult → Bool
broken (wrote n) = false
broken (failed e) = is_fault e

-- What sendInLoop takes of its bytes: nothing once the connection is down or found to be broken.
abbrev pub taken : TcpConnection → List ℕ → WriteResult → List ℕ
taken c bytes r =
    if is_state c.state disconnected || (writes_at_once c && broken r) then [] else bytes

-- After sendInLoop of `bytes`, of which `taken` was taken.
pub record Sent (c : TcpConnection) (bytes took : List ℕ) (d : TcpConnection) : Type 0 where
  pub inv : Inv d
  pub in_order : sent d ≡ sent c ++ took
  pub state_same : d.state ≡ c.state
  pub high :
      d.output_buffer.writer_index ≤ c.output_buffer.writer_index + length bytes + cheap_prepend

nothing-Sent : (c : TcpConnection) (bytes : List ℕ) → Inv c → Sent c bytes [] c
nothing-Sent c bytes i = record {
  inv = i;
  in_order = sym (append-nil (sent c));
  state_same = refl;
  high = omega arith;
}

-- All of the bytes go to the buffer.
buffer_all :
    (c : TcpConnection) (bytes : List ℕ)
    → Inv c
    → HasRoom c (length bytes)
    → (d : TcpConnection) × (buffer_rest c bytes ≡ some d) × Sent c bytes bytes d
buffer_all c bytes i room =
    let (d, ok, s) = buffer_rest-Buffered c bytes i.valid i.low i.mask room in
    (
      d,
      ok,
      record {
        inv = Buffered-Inv i s;
        in_order = Buffered-sent s;
        state_same = s.state_same;
        high = s.high;
      },
    )

-- `n` bytes go to the socket, the others to the empty buffer.
module _ (c : TcpConnection) (bytes : List ℕ) (n : ℕ) (b : Bool) where
  abbrev written : TcpConnection
  written = enqueue_if b write_complete (record c { wire = c.wire ++ take n bytes })

  written-Inv : Inv c → Inv written
  written-Inv i = record { valid = i.valid; low = i.low; mask = i.mask; waits = i.waits }

  written-sent : output c ≡ [] → sent written ++ drop n bytes ≡ sent c ++ bytes
  written-sent e = rw (
    e,
    append-nil (c.wire ++ take n bytes),
    append-nil c.wire,
    append_assoc c.wire (take n bytes) (drop n bytes),
    take-append-drop n bytes,
  )

write_some :
    (c : TcpConnection) (bytes : List ℕ) (n : ℕ)
    → Inv c
    → n ≤ length bytes
    → output c ≡ []
    → HasRoom c (length bytes)
    → (d : TcpConnection) × (after_write c bytes (wrote n) ≡ some d) × Sent c bytes bytes d
unfolding after_write
write_some c bytes n i h empty room =
    let b = (length bytes - n == 0) && c.write_complete_set in
    let c' = written c bytes n b in
    let i' = written-Inv c bytes n b i in
    let shorter = length-drop n bytes in
    let (d, ok, s) = buffer_rest-Buffered c' (drop n bytes) i'.valid i'.low i'.mask (omega arith) in
    (
      d,
      rw (le→leb n (length bytes) h) ok,
      record {
        inv = Buffered-Inv i' s;
        in_order = Buffered-sent s ∙ written-sent c bytes n b empty;
        state_same = s.state_same;
        high = (let high = s.high in omega arith);
      },
    )

pub is_empty→nil : (xs : List ℕ) → is_empty xs ≡ true → xs ≡ []
is_empty→nil [] h = refl
is_empty→nil (x ∷ xs) h = cc

-- When the write is tried at once, on any answer.
at_once :
    (c : TcpConnection) (bytes : List ℕ) (r : WriteResult)
    → Inv c
    → IsAnswer r (length bytes)
    → is_empty (output c) ≡ true
    → HasRoom c (length bytes)
    → (d : TcpConnection) × (after_write c bytes r ≡ some d)
      × Sent c bytes (if broken r then [] else bytes) d
unfolding after_write
at_once c bytes (wrote n) i h e room = write_some c bytes n i h (is_empty→nil (output c) e) room
at_once c bytes (failed e) i h _ room = elim (Bool-cases (is_fault e)) [
  | inl fault ↦ rw fault (c, refl, nothing-Sent c bytes i)
  | inr passing ↦ let (d, ok, s) = buffer_all c bytes i room in rw passing (d, ok, s)
]

abbrev at_once_test : TcpConnection → Bool
at_once_test c = not (is_writing c.channel) && (readable_bytes c.output_buffer == 0)

test-writes_at_once : (c : TcpConnection) → Inv c → at_once_test c ≡ writes_at_once c
test-writes_at_once c i =
    ap (λ b. not (is_writing c.channel) && b) (readable-is_empty c.output_buffer i.valid)

and_right : (a b : Bool) → (a && b) ≡ true → b ≡ true
and_right true b h = h
and_right false b h = cc

-- sendInLoop takes the bytes behind all that it took before, whatever part the socket takes and
-- whatever part is buffered; it takes none if the connection is down or found to be broken. It keeps
-- the invariant and the state, and does not abort while the buffer may grow.
pub send_now-Sent :
    (c : TcpConnection) (bytes : List ℕ) (r : WriteResult)
    → Inv c
    → IsAnswer r (length bytes)
    → HasRoom c (length bytes)
    → (d : TcpConnection) × (send_now c bytes r ≡ some d) × Sent c bytes (taken c bytes r) d
unfolding send_now
send_now-Sent c bytes r i h room = elim (Bool-cases (is_state c.state disconnected)) [
  | inl down ↦ rw down (c, refl, nothing-Sent c bytes i)
  | inr up ↦ elim (Bool-cases (writes_at_once c)) [
    | inl now ↦
        let (d, ok, s) = at_once c bytes r i h (and_right _ _ now) room in
        rw (up, test-writes_at_once c i, now) (d, ok, s)
    | inr later ↦
        let (d, ok, s) = buffer_all c bytes i room in
        rw (up, test-writes_at_once c i, later) (d, ok, s)
  ]
]
