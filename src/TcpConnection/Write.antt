-- ===== src/TcpConnection/Write.antt =====
-- net/TcpConnection.cc: handleWrite writes what waits, from the front.
use mathlib.Core.List.{append_assoc}
use libanet.Common.{
  ℕ, ◌≤◌, ◌≡◌, refl, inl, inr, true, false, some, ◌++◌, length, take, drop, ◌==◌, arith, Bool-cases,
  take-append-drop,
}
use libanet.Buffer.{Buffer, cheap_prepend}
use libanet.Buffer.Space.{IsValid, contents, length-contents, readable_bytes_lem}
use libanet.Buffer.Bytes.{retrieve-Holds, retrieve-writer_index}
use libanet.Channel.{is_writing, disable_writing}
use libanet.Channel.Events.{IsMask, events-Switches}
use libanet.TcpConnection.{
  TcpConnection, disconnecting, is_state, WriteResult, wrote, failed, shutdown_now, after_flush,
  flush, handle_write,
}
use libanet.TcpConnection.Output.{output, sent, is_empty, Inv, readable-is_empty}
use libanet.TcpConnection.Send.{IsAnswer}

-- What is left when the buffer has run empty.
record Flushed (c d : TcpConnection) : Type 0 where
  wire_same : d.wire ≡ c.wire
  buffer_same : d.output_buffer ≡ c.output_buffer
  state_same : d.state ≡ c.state
  channel_off : d.channel ≡ disable_writing c.channel
  shut : is_state c.state disconnecting ≡ true → d.write_shut ≡ true

after_flush-Flushed : (c : TcpConnection) → IsMask c.channel.events → Flushed c (after_flush c)
unfolding after_flush shutdown_now
after_flush-Flushed c m = elim (Bool-cases (is_state c.state disconnecting)) [
  | inl closing ↦
      let off = (events-Switches c.channel m).write_off.writes in
      rw (closing, off)
        (record {
          wire_same = refl;
          buffer_same = refl;
          state_same = refl;
          channel_off = refl;
          shut = λ _. refl;
        })
  | inr open_still ↦ rw open_still (record {
    wire_same = refl;
    buffer_same = refl;
    state_same = refl;
    channel_off = refl;
    shut = λ h. cc;
  })
]

-- After the socket has taken bytes from the front of the buffer.
pub record Wrote (c d : TcpConnection) : Type 0 where
  pub inv : Inv d
  pub in_order : sent d ≡ sent c
  pub state_same : d.state ≡ c.state
  pub high : d.output_buffer.writer_index ≤ c.output_buffer.writer_index

-- The connection when `n` bytes have gone from its buffer, which is `b` then.
abbrev shifted : TcpConnection → Buffer → ℕ → TcpConnection
shifted c b n = record c { output_buffer = b; wire = c.wire ++ take n (output c) }

module _ (c : TcpConnection) (b : Buffer) (n : ℕ) (i : Inv c) (v : IsValid b)
    (rest : contents b ≡ drop n (output c)) (low : cheap_prepend ≤ b.writer_index)
    (high : b.writer_index ≤ c.output_buffer.writer_index) where
  shifted-sent : sent (shifted c b n) ≡ sent c
  shifted-sent = rw (
    rest,
    append_assoc c.wire (take n (output c)) (drop n (output c)),
    take-append-drop n (output c),
  )

  -- Some bytes are left.
  shifted-Wrote :
      is_writing c.channel ≡ true → is_empty (contents b) ≡ false → Wrote c (shifted c b n)
  shifted-Wrote on left = record {
    inv = record { valid = v; low = low; mask = i.mask; waits = λ up. rw (on, left) };
    in_order = shifted-sent;
    state_same = refl;
    high = high;
  }

  -- None is left.
  flushed-Wrote : is_empty (contents b) ≡ true → Wrote c (after_flush (shifted c b n))
  flushed-Wrote empty =
      let f = after_flush-Flushed (shifted c b n) i.mask in
      let off = (events-Switches c.channel i.mask).write_off in
      record {
        inv = record {
          valid = rw f.buffer_same v;
          low = rw f.buffer_same low;
          mask = rw f.channel_off off.mask;
          waits = λ up. rw (f.channel_off, f.buffer_same, empty) off.writes;
        };
        in_order = rw (f.wire_same, f.buffer_same) shifted-sent;
        state_same = f.state_same;
        high = rw f.buffer_same high;
      }

flush-Wrote :
    (c : TcpConnection) (n : ℕ)
    → Inv c
    → is_writing c.channel ≡ true
    → n ≤ length (output c)
    → (d : TcpConnection) × (flush c n ≡ some d) × Wrote c d
unfolding flush
flush-Wrote c n i on h =
    let len = length-contents c.output_buffer i.valid in
    let (b, ok, v, rest) = retrieve-Holds c.output_buffer n i.valid (omega arith) in
    let (high, low) = retrieve-writer_index c.output_buffer b n i.valid (omega arith) ok i.low in
    elim (Bool-cases (is_empty (contents b))) [
      | inl none_left ↦ (
        after_flush (shifted c b n),
        rw (ok, readable_bytes_lem c.output_buffer i.valid, readable-is_empty b v, none_left) refl,
        flushed-Wrote c b n i v rest low high none_left,
      )
      | inr some_left ↦ (
        shifted c b n,
        rw (ok, readable_bytes_lem c.output_buffer i.valid, readable-is_empty b v, some_left) refl,
        shifted-Wrote c b n i v rest low high on some_left,
      )
    ]

unchanged-Wrote : (c : TcpConnection) → Inv c → Wrote c c
unchanged-Wrote c i = record { inv = i; in_order = refl; state_same = refl; high = omega arith }

-- handleWrite moves bytes from the front of the buffer to the socket, so the bytes that were taken
-- stay the same, in the same order. It keeps the invariant and the state, and does not abort.
pub handle_write-Wrote :
    (c : TcpConnection) (r : WriteResult)
    → Inv c
    → IsAnswer r (length (output c))
    → (d : TcpConnection) × (handle_write c r ≡ some d) × Wrote c d
unfolding handle_write
handle_write-Wrote c (failed e) i h = (c, refl, unchanged-Wrote c i)
handle_write-Wrote c (wrote n) i h = elim (Bool-cases (is_writing c.channel)) [
  | inl on ↦ elim (Bool-cases (n == 0)) [
    | inl nothing ↦ rw (on, nothing) (c, refl, unchanged-Wrote c i)
    | inr something ↦ rw (on, something) (flush-Wrote c n i on h)
  ]
  | inr off ↦ rw off (c, refl, unchanged-Wrote c i)
]
