-- ===== src/TcpConnection/Output.antt =====
-- net/TcpConnection.cc: the invariant of the output side, and what stays when bytes are buffered.
use mathlib.Core.List.{append-nil, append_assoc}
use libanet.Common.{
  ℕ, suc, ◌+◌, ◌≤◌, ◌≡◌, refl, sym, inl, inr, Bool, true, false, not, ◌&&◌, ◌||◌, some, List, [],
  ◌∷◌, ◌++◌, length, ◌==◌, arith, Bool-cases, if◌then◌else◌,
}
use libanet.Common.Words.{max_size}
use libanet.Buffer.{Buffer, cheap_prepend, readable_bytes}
use libanet.Buffer.Space.{IsValid, contents, length-contents, readable_bytes_lem}
use libanet.Buffer.Bytes.{append-Holds, append-writer_index}
use libanet.Channel.{Channel, is_writing, enable_writing}
use libanet.Channel.Events.{IsMask, events-Switches}
use libanet.TcpConnection.{TcpConnection, disconnected, is_state, buffer_rest, buffered}

abbrev pub output : TcpConnection → List ℕ
output c = contents c.output_buffer

-- Every byte that the connection has taken: what the socket took, and what waits in the buffer.
abbrev pub sent : TcpConnection → List ℕ
sent c = c.wire ++ output c

abbrev pub is_empty : List ℕ → Bool
is_empty [] = true
is_empty (x ∷ xs) = false

-- The buffer is in order, and until the connection is down the channel waits to write just as long
-- as bytes wait to be written.
pub record Inv (c : TcpConnection) : Type 0 where
  pub valid : IsValid c.output_buffer
  pub low : cheap_prepend ≤ c.output_buffer.writer_index
  pub mask : IsMask c.channel.events
  pub waits :
      is_state c.state disconnected ≡ false → is_writing c.channel ≡ not (is_empty (output c))

-- Room in the output buffer for `n` more bytes.
abbrev pub HasRoom : TcpConnection → ℕ → Type 0
HasRoom c n = c.output_buffer.writer_index + n ≤ max_size

is_empty-length : (xs : List ℕ) → is_empty xs ≡ (length xs == 0)
is_empty-length [] = refl
is_empty-length (x ∷ xs) = ground arith

is_empty-append : (xs ys : List ℕ) → is_empty (xs ++ ys) ≡ (is_empty xs && is_empty ys)
is_empty-append [] ys = refl
is_empty-append (x ∷ xs) ys = refl

-- The code's test for an empty buffer.
pub readable-is_empty : (b : Buffer) → IsValid b → (readable_bytes b == 0) ≡ is_empty (contents b)
readable-is_empty b v =
    rw (is_empty-length (contents b), readable_bytes_lem b v, length-contents b v)

-- What buffering `rest` makes of `c`.
pub record Buffered (c : TcpConnection) (rest : List ℕ) (d : TcpConnection) : Type 0 where
  pub out : output d ≡ output c ++ rest
  pub wire_same : d.wire ≡ c.wire
  pub state_same : d.state ≡ c.state
  pub valid : IsValid d.output_buffer
  pub low : cheap_prepend ≤ d.output_buffer.writer_index
  pub high :
      d.output_buffer.writer_index ≤ c.output_buffer.writer_index + length rest + cheap_prepend
  pub mask : IsMask d.channel.events
  pub writing : is_writing d.channel ≡ (is_writing c.channel || not (is_empty rest))

-- The channel that is made to wait for writing.
abbrev woken : TcpConnection → Channel
woken c = if is_writing c.channel then c.channel else enable_writing c.channel

buffered-mask : (c : TcpConnection) → IsMask c.channel.events → IsMask (woken c).events
buffered-mask c m = elim (Bool-cases (is_writing c.channel)) [
  | inl on ↦ rw on m
  | inr off ↦ rw off (events-Switches c.channel m).write_on.mask
]

buffered-writing :
    (c : TcpConnection)
    → IsMask c.channel.events
    → is_writing (woken c) ≡ (is_writing c.channel || true)
buffered-writing c m = elim (Bool-cases (is_writing c.channel)) [
  | inl on ↦ rw on on
  | inr off ↦ rw off (events-Switches c.channel m).write_on.writes
]

buffer_nothing :
    (c : TcpConnection)
    → IsValid c.output_buffer
    → cheap_prepend ≤ c.output_buffer.writer_index
    → IsMask c.channel.events
    → (d : TcpConnection) × (buffer_rest c [] ≡ some d) × Buffered c [] d
unfolding buffer_rest
buffer_nothing c v l m = (
  c,
  refl,
  record {
    out = sym (append-nil (output c));
    wire_same = refl;
    state_same = refl;
    valid = v;
    low = l;
    high = omega arith;
    mask = m;
    writing = ground arith;
  },
)

buffer_some :
    (c : TcpConnection) (x : ℕ) (xs : List ℕ)
    → IsValid c.output_buffer
    → cheap_prepend ≤ c.output_buffer.writer_index
    → IsMask c.channel.events
    → HasRoom c (length (x ∷ xs))
    → (d : TcpConnection) × (buffer_rest c (x ∷ xs) ≡ some d) × Buffered c (x ∷ xs) d
unfolding buffer_rest buffered
buffer_some c x xs v l m room =
    let (b, ok, w, same) = append-Holds c.output_buffer (x ∷ xs) v room in
    let (high, low) = append-writer_index c.output_buffer b (x ∷ xs) v room ok l in
    (
      buffered c (length (x ∷ xs)) b,
      (let some_left : (suc (length xs) == 0) ≡ false = ground arith in rw (some_left, ok) refl),
      record {
        out = same;
        wire_same = refl;
        state_same = refl;
        valid = w;
        low = low;
        high = high;
        mask = buffered-mask c m;
        writing = buffered-writing c m;
      },
    )

-- Bytes that were not written are buffered behind those that wait, and the channel waits to write.
pub buffer_rest-Buffered :
    (c : TcpConnection) (rest : List ℕ)
    → IsValid c.output_buffer
    → cheap_prepend ≤ c.output_buffer.writer_index
    → IsMask c.channel.events
    → HasRoom c (length rest)
    → (d : TcpConnection) × (buffer_rest c rest ≡ some d) × Buffered c rest d
buffer_rest-Buffered c [] v l m room = buffer_nothing c v l m
buffer_rest-Buffered c (x ∷ xs) v l m room = buffer_some c x xs v l m room

not_and : (a b : Bool) → (not a || not b) ≡ not (a && b)
not_and true b = refl
not_and false b = refl

pub Buffered-sent :
    {c d : TcpConnection} {rest : List ℕ} → Buffered c rest d → sent d ≡ sent c ++ rest
Buffered-sent {c} {d} {rest} s = rw (s.wire_same, s.out) (sym (append_assoc c.wire (output c) rest))

pub Buffered-Inv : {c d : TcpConnection} {rest : List ℕ} → Inv c → Buffered c rest d → Inv d
Buffered-Inv {c} {d} {rest} i s = record {
  valid = s.valid;
  low = s.low;
  mask = s.mask;
  waits = λ up.
      rw (s.out, s.writing, is_empty-append (output c) rest, i.waits (rw s.state_same at up))
        (not_and _ _);
}
