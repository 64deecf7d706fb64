-- ===== src/TcpConnection/Run.antt =====
-- net/TcpConnection.cc: a stream of messages over any course of full and partial writes.
use mathlib.Core.List.{append-nil, append_assoc}
use libanet.Common.{
  ℕ, ◌+◌, ◌≤◌, ◌≡◌, refl, sym, ap, ◌∙◌, true, false, Option, some, List, [], ◌∷◌, ◌++◌, length,
  arith,
}
use libanet.Common.Words.{max_size}
use libanet.Common.Options.{◌>>=◌}
use libanet.Buffer.{cheap_prepend}
use libanet.TcpConnection.{
  TcpConnection, connected, WriteResult, is_connected, send_now, send, Event, sends, writable, step,
}
use libanet.TcpConnection.Output.{output, sent, Inv}
use libanet.TcpConnection.Send.{IsAnswer, broken, taken, send_now-Sent}
use libanet.TcpConnection.Write.{handle_write-Wrote}

-- What the socket answers to a write of some length, and the two events in which it is asked.
pub data Traffic : Type 0 where
  message : List ℕ → (ℕ → WriteResult) → Traffic
  ready : (ℕ → WriteResult) → Traffic

abbrev pub event : TcpConnection → Traffic → Event
event c (message bytes socket) = sends true bytes (socket (length bytes))
event c (ready socket) = writable (socket (length (output c)))

unfoldable pub serve : TcpConnection → List Traffic → Option TcpConnection
serve c [] = some c
serve c (t ∷ ts) = step c (event c t) >>= λ d. serve d ts

-- The socket keeps to write(2) and the peer stays there.
abbrev pub IsHealthy : Traffic → Type 0
IsHealthy (message bytes socket) = (n : ℕ) → IsAnswer (socket n) n × (broken (socket n) ≡ false)
IsHealthy (ready socket) = (n : ℕ) → IsAnswer (socket n) n × (broken (socket n) ≡ false)

abbrev pub All {ℓ} : {A : Type ℓ} → (A → Type 0) → List A → Type 0
All P [] = Unit
All P (x ∷ xs) = P x × All P xs

abbrev pub bytes_of : Traffic → List ℕ
bytes_of (message bytes socket) = bytes
bytes_of (ready socket) = []

abbrev pub all_bytes : List Traffic → List ℕ
all_bytes [] = []
all_bytes (t ∷ ts) = bytes_of t ++ all_bytes ts

-- Enough room for every message, were nothing written at once.
abbrev pub room_for : List Traffic → ℕ
room_for [] = 0
room_for (t ∷ ts) = length (bytes_of t) + cheap_prepend + room_for ts

-- After one event.
record Served (c : TcpConnection) (t : Traffic) (d : TcpConnection) : Type 0 where
  inv : Inv d
  up : d.state ≡ connected
  in_order : sent d ≡ sent c ++ bytes_of t
  high :
      d.output_buffer.writer_index
      ≤ c.output_buffer.writer_index + length (bytes_of t) + cheap_prepend

taken_all :
    (c : TcpConnection) (bytes : List ℕ) (r : WriteResult)
    → c.state ≡ connected
    → broken r ≡ false
    → taken c bytes r ≡ bytes
taken_all c bytes r up whole = rw (up, whole) (ground arith)

send-send_now :
    (c : TcpConnection) (bytes : List ℕ) (r : WriteResult)
    → is_connected c ≡ true
    → send c true bytes r ≡ send_now c bytes r
unfolding send
send-send_now c bytes r up = rw up refl

step-Served :
    (c : TcpConnection) (t : Traffic)
    → Inv c
    → c.state ≡ connected
    → IsHealthy t
    → c.output_buffer.writer_index + length (bytes_of t) ≤ max_size
    → (d : TcpConnection) × (step c (event c t) ≡ some d) × Served c t d
unfolding step
step-Served c (message bytes socket) i up healthy room =
    let r = socket (length bytes) in
    let (d, ok, s) = send_now-Sent c bytes r i (healthy (length bytes)).0 room in
    (
      d,
      send-send_now c bytes r (rw up refl) ∙ ok,
      record {
        inv = s.inv;
        up = s.state_same ∙ up;
        in_order =
            s.in_order
            ∙ ap (λ xs. sent c ++ xs) (taken_all c bytes r up (healthy (length bytes)).1);
        high = s.high;
      },
    )
step-Served c (ready socket) i up healthy room =
    let (d, ok, s) = handle_write-Wrote c (socket (length (output c))) i (healthy _).0 in
    (
      d,
      ok,
      record {
        inv = s.inv;
        up = s.state_same ∙ up;
        in_order = s.in_order ∙ sym (append-nil (sent c));
        high = (let high = s.high in omega arith);
      },
    )

-- On an established connection whose peer stays there, the bytes that the socket took and those that
-- wait in the buffer are together the messages in the order in which they were sent, after any course
-- of full, partial and refused writes; no handler aborts while the room suffices.
pub serve-in_order :
    (c : TcpConnection) (ts : List Traffic)
    → Inv c
    → c.state ≡ connected
    → All IsHealthy ts
    → c.output_buffer.writer_index + room_for ts ≤ max_size
    → (d : TcpConnection) × (serve c ts ≡ some d)
      × Inv d
      × (d.state ≡ connected)
      × (sent d ≡ sent c ++ all_bytes ts)
unfolding serve
serve-in_order c [] i up healthy room = (c, refl, i, up, sym (append-nil (sent c)))
serve-in_order c (t ∷ ts) i up healthy room =
    let (d, ok, s) = step-Served c t i up healthy.0 (omega arith) in
    let high = s.high in
    let (e, rest, j, still_up, order) = serve-in_order d ts s.inv s.up healthy.1 (omega arith) in
    (
      e,
      rw ok rest,
      j,
      still_up,
      order
          ∙ ap (λ xs. xs ++ all_bytes ts) s.in_order
          ∙ append_assoc (sent c) (bytes_of t) (all_bytes ts),
    )
