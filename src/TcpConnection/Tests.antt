-- ===== src/TcpConnection/Tests.antt =====
-- Runs of a connection, and the theorems at concrete inputs.
use mathlib.Core.Option
use libanet.Common.{ℕ, ◌≡◌, refl, inl, inr, true, false, none, some, List, [], ◌∷◌, min, arith}
use libanet.Common.Int.{negsuc}
use libanet.Common.Words.{add_size, sub_size}
use libanet.Common.Options.{◌>>=◌}
use libanet.Buffer.{
  Buffer, append, retrieve, retrieve_all, ensure_writable_bytes, make_space, has_written, resize,
}
use libanet.Channel.{has, enable_reading, enable_writing, disable_writing, disable_all, tie, remove}
use libanet.TcpConnection.{
  TcpConnection, connected, disconnecting, WriteResult, wrote, connection, close, closed, establish,
  force, shuts, readable, force_close_in_loop, send_now, handle_write, step, late_force, runs,
  destroy,
}
use libanet.TcpConnection.Output.{Inv, output, sent}
use libanet.TcpConnection.Send.{Sent, taken, send_now-Sent}
use libanet.TcpConnection.Write.{Wrote, handle_write-Wrote}
use libanet.TcpConnection.States.{Advances, told, step-Advances, late_force_close-told_twice}
use libanet.TcpConnection.Run.{Traffic, ready, serve, serve-in_order}
use libanet.TcpConnection.Run

operations : Unit {0}
unfolding step serve has enable_reading enable_writing disable_writing disable_all tie remove
    add_size sub_size append retrieve retrieve_all ensure_writable_bytes make_space has_written
    resize
operations = tt

abbrev zeros : List ℕ
zeros = 0 ∷ 0 ∷ 0 ∷ 0 ∷ 0 ∷ 0 ∷ 0 ∷ 0 ∷ 0 ∷ 0 ∷ 0 ∷ 0 ∷ []

abbrev empty_buffer : Buffer
empty_buffer = record { buffer = zeros; reader_index = 8; writer_index = 8 }

-- A connection that reads and has nothing to write.
abbrev open_connection : TcpConnection
open_connection = record {
  state = connected;
  reading = true;
  channel = record {
    fd = 5;
    events = 3;
    revents = 0;
    index = negsuc 0;
    log_hup = true;
    tied = true;
    event_handling = false;
    added_to_loop = true;
  };
  input_buffer = empty_buffer;
  output_buffer = empty_buffer;
  mark = 100;
  write_complete_set = true;
  high_water_mark_set = false;
  wire = [];
  write_shut = false;
  queue = [];
  calls = connection true ∷ [];
}

open_connection-Inv : Inv open_connection
unfolding operations
open_connection-Inv = record {
  valid = omega arith;
  low = omega arith;
  mask = inr (inl refl);
  waits = λ up. refl;
}

-- A socket that takes two bytes at a time.
abbrev slow : ℕ → WriteResult
slow n = wrote (min n 2)

runs_example :
    (Option.map
        (λ d. sent d)
        (serve open_connection (Run.message (1 ∷ 2 ∷ 3 ∷ 4 ∷ 5 ∷ []) slow ∷ ready slow ∷ []))
      ≡ some (1 ∷ 2 ∷ 3 ∷ 4 ∷ 5 ∷ []))
    × (Option.map
          (λ d. output d)
          (serve open_connection (Run.message (1 ∷ 2 ∷ 3 ∷ 4 ∷ 5 ∷ []) slow ∷ ready slow ∷ []))
        ≡ some (5 ∷ []))
    × (Option.map (λ d. d.calls) (step open_connection (readable closed))
        ≡ some (connection true ∷ connection false ∷ close ∷ []))
    × (Option.map (λ d. d.queue) (step open_connection force) ≡ some (force_close_in_loop ∷ []))
    × (step open_connection establish ≡ none)
unfolding operations
runs_example = (refl, refl, refl, refl, refl)

send_now-Sent_example :
    (d : TcpConnection) × (send_now open_connection (1 ∷ 2 ∷ 3 ∷ []) (wrote 1) ≡ some d)
    × Sent open_connection (1 ∷ 2 ∷ 3 ∷ []) (taken open_connection (1 ∷ 2 ∷ 3 ∷ []) (wrote 1)) d
send_now-Sent_example =
    send_now-Sent open_connection (1 ∷ 2 ∷ 3 ∷ []) (wrote 1) open_connection-Inv (omega arith)
      (omega arith)

abbrev writing_connection : TcpConnection
writing_connection = record open_connection {
  channel = record (open_connection.channel) { events = 7 };
  output_buffer = record {
    buffer = 0 ∷ 0 ∷ 0 ∷ 0 ∷ 0 ∷ 0 ∷ 0 ∷ 0 ∷ 7 ∷ 8 ∷ 9 ∷ 0 ∷ [];
    reader_index = 8;
    writer_index = 11;
  };
}

writing_connection-Inv : Inv writing_connection
unfolding operations
writing_connection-Inv = record {
  valid = omega arith;
  low = omega arith;
  mask = inr (inr (inr refl));
  waits = λ up. refl;
}

handle_write-Wrote_example :
    (d : TcpConnection) × (handle_write writing_connection (wrote 2) ≡ some d)
    × Wrote writing_connection d
handle_write-Wrote_example =
    handle_write-Wrote writing_connection (wrote 2) writing_connection-Inv (omega arith)

serve-in_order_example :
    (d : TcpConnection) × (serve open_connection
        (Run.message (1 ∷ 2 ∷ 3 ∷ []) slow ∷ ready slow ∷ [])
      ≡ some d)
    × Inv d
    × (d.state ≡ connected)
    × (sent d ≡ 1 ∷ 2 ∷ 3 ∷ [])
serve-in_order_example =
    serve-in_order open_connection (Run.message (1 ∷ 2 ∷ 3 ∷ []) slow ∷ ready slow ∷ [])
      open_connection-Inv refl ((λ n. (omega arith, refl)), ((λ n. (omega arith, refl)), tt))
      (omega arith)

abbrev closing_connection : TcpConnection
closing_connection = record open_connection { state = disconnecting }

step-Advances_example : Advances open_connection (record closing_connection { write_shut = true })
unfolding operations
step-Advances_example =
    step-Advances open_connection (record closing_connection { write_shut = true }) shuts tt refl

late_force_close-told_twice_example :
    (step open_connection (readable closed) >>= λ c₁. step c₁ late_force >>= λ c₂.
    step c₂ (runs force_close_in_loop (wrote 0)) >>= λ d. some (told d.calls))
    ≡ some (true ∷ false ∷ false ∷ [])
late_force_close-told_twice_example = late_force_close-told_twice open_connection (wrote 0) refl

-- A connection that is closing, with the channel still on, when its server is destroyed.
destroyed_while_closing : (step open_connection shuts >>= λ c. step c destroy) ≡ none
unfolding operations
destroyed_while_closing = refl
