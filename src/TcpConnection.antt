-- ===== src/TcpConnection.antt =====
-- net/TcpConnection.h and net/TcpConnection.cc: a connection, as its loop's thread sees it. The
-- record holds the members, and below them what the outside has seen: the bytes that the socket
-- took, the write side shut down, the functors in the loop's queue, and the calls of the user's and
-- the server's callbacks. What a system call answers is an argument of the handler. A callback runs
-- when the handler returns: what it calls is a later step. `none` is an abort by a failed assert.
-- Names, addresses, contexts, log lines and socket options are left out.
mod Output
mod Send
mod Write
mod States
mod Run
mod Tests
use libanet.Common.{
  ℕ, ◌+◌, ◌-◌, ◌*◌, Bool, true, false, not, ◌&&◌, ◌||◌, Option, none, some, List, [], ◌∷◌, ◌++◌,
  length, take, drop, ltb, leb, ◌==◌, if◌then◌else◌,
}
use libanet.Common.Options.{◌>>=◌, ◌>>◌, check}
use libanet.Buffer.{Buffer, initial_size, readable_bytes, retrieve, append}
use libanet.Buffer
use libanet.Channel.{
  Channel, is_writing, is_reading, enable_reading, disable_reading, enable_writing, disable_writing,
  disable_all, tie,
}
use libanet.Channel

pub data StateE : Type 0 where
  disconnected connecting connected disconnecting : StateE

abbrev pub is_state : StateE → StateE → Bool
is_state disconnected disconnected = true
is_state connecting connecting = true
is_state connected connected = true
is_state disconnecting disconnecting = true
is_state _ _ = false

-- errno after a failed write(2).
pub data Errno : Type 0 where
  ewouldblock epipe econnreset other : Errno

pub data WriteResult : Type 0 where
  wrote : ℕ → WriteResult
  failed : Errno → WriteResult

-- What `inputBuffer_.readFd` does: bytes in the input buffer, the end of the stream, or an error.
pub data ReadResult : Type 0 where
  received : Buffer → ReadResult
  closed : ReadResult
  read_failed : ReadResult

-- A functor in the loop's queue, or one that the loop's timer queue holds.
pub data Functor : Type 0 where
  write_complete : Functor
  high_water_mark : ℕ → Functor
  send_in_loop : List ℕ → Functor
  shutdown_in_loop force_close_in_loop start_read_in_loop stop_read_in_loop : Functor
  force_close_after_delay : Functor

-- A call of connectionCallback_ (with what `connected()` answers), messageCallback_ or
-- closeCallback_.
pub data Call : Type 0 where
  connection : Bool → Call
  message : Call
  close : Call

pub record TcpConnection : Type 0 where
  pub state : StateE
  pub reading : Bool
  pub channel : Channel
  pub input_buffer : Buffer
  pub output_buffer : Buffer
  pub mark : ℕ
  pub write_complete_set : Bool
  pub high_water_mark_set : Bool
  pub wire : List ℕ
  pub write_shut : Bool
  pub queue : List Functor
  pub calls : List Call

unfoldable pub create : ℕ → Bool → Bool → TcpConnection
create sockfd write_complete_set high_water_mark_set = record {
  state = connecting;
  reading = true;
  channel = Channel.create sockfd;
  input_buffer = Buffer.create initial_size;
  output_buffer = Buffer.create initial_size;
  mark = 64 * 1024 * 1024;
  write_complete_set = write_complete_set;
  high_water_mark_set = high_water_mark_set;
  wire = [];
  write_shut = false;
  queue = [];
  calls = [];
}

abbrev pub enqueue : Functor → TcpConnection → TcpConnection
enqueue f c = record c { queue = c.queue ++ f ∷ [] }

abbrev pub enqueue_if : Bool → Functor → TcpConnection → TcpConnection
enqueue_if b f c = record c { queue = if b then c.queue ++ f ∷ [] else c.queue }

abbrev pub call : Call → TcpConnection → TcpConnection
call k c = record c { calls = c.calls ++ k ∷ [] }

abbrev pub is_connected : TcpConnection → Bool
is_connected c = is_state c.state connected

-- The rest of sendInLoop, for the bytes that were not written at once: `b` is the output buffer
-- with them.
unfoldable pub buffered : TcpConnection → ℕ → Buffer → TcpConnection
buffered c remaining b =
    let old_len = readable_bytes c.output_buffer in
    let crossed =
      leb c.mark (old_len + remaining) && (ltb old_len c.mark && c.high_water_mark_set) in
    record (enqueue_if crossed (high_water_mark (old_len + remaining)) c) {
      output_buffer = b;
      channel = if is_writing c.channel then c.channel else enable_writing c.channel;
    }

unfoldable pub buffer_rest : TcpConnection → List ℕ → Option TcpConnection
unfolding buffered
buffer_rest c rest =
    if length rest == 0
    then some c
    else (do b ← append c.output_buffer rest; some (buffered c (length rest) b))

abbrev pub is_fault : Errno → Bool
is_fault epipe = true
is_fault econnreset = true
is_fault _ = false

-- sendInLoop, after sockets::write has answered.
unfoldable pub after_write : TcpConnection → List ℕ → WriteResult → Option TcpConnection
unfolding buffer_rest
after_write c bytes (wrote n) = do
  check (leb n (length bytes))
  let c' = record c { wire = c.wire ++ take n bytes }
  buffer_rest (enqueue_if ((length bytes - n == 0) && c.write_complete_set) write_complete c')
      (drop n bytes)
after_write c bytes (failed e) = if is_fault e then some c else buffer_rest c bytes

-- sendInLoop, in the loop's thread. The answer of sockets::write is used only if it is called.
unfoldable pub send_now : TcpConnection → List ℕ → WriteResult → Option TcpConnection
unfolding after_write
send_now c bytes r =
    if is_state c.state disconnected
    then some c
    else if not (is_writing c.channel) && (readable_bytes c.output_buffer == 0)
    then after_write c bytes r
    else buffer_rest c bytes

-- send(const StringPiece &), from the loop's thread or from another.
unfoldable pub send : TcpConnection → Bool → List ℕ → WriteResult → Option TcpConnection
unfolding send_now
send c in_loop_thread bytes r =
    if is_connected c
    then (if in_loop_thread then send_now c bytes r else some (enqueue (send_in_loop bytes) c))
    else some c

-- send(Buffer *): the buffer that is left, too.
unfoldable pub send_buffer :
    TcpConnection → Bool → Buffer → WriteResult → Option (TcpConnection × Buffer)
unfolding send_now
send_buffer c in_loop_thread b r =
    if is_connected c
    then (if in_loop_thread
        then (do
          c' ← send_now c (Buffer.bytes_at b b.reader_index (readable_bytes b)) r
          some (c', Buffer.retrieve_all b))
        else (do
          (bytes, b') ← Buffer.retrieve_all_as_string b
          some (enqueue (send_in_loop bytes) c, b')))
    else some (c, b)

-- shutdownInLoop
unfoldable pub shutdown_now : TcpConnection → TcpConnection
shutdown_now c = if is_writing c.channel then c else record c { write_shut = true }

-- shutdown, in the loop's thread.
unfoldable pub shutdown : TcpConnection → TcpConnection
unfolding shutdown_now
shutdown c = if is_connected c then shutdown_now (record c { state = disconnecting }) else c

-- shutdown in another thread, from the point where its test of `state_` has succeeded. Nothing ties the
-- test to what follows, so that the loop's thread may have changed the state.
unfoldable pub late_shutdown : TcpConnection → TcpConnection
late_shutdown c = enqueue shutdown_in_loop (record c { state = disconnecting })

abbrev pub is_open : TcpConnection → Bool
is_open c = is_state c.state connected || is_state c.state disconnecting

-- forceClose from the point where its test has succeeded: in another thread, that is later.
unfoldable pub late_force_close : TcpConnection → TcpConnection
late_force_close c = enqueue force_close_in_loop (record c { state = disconnecting })

-- forceClose, in the loop's thread.
unfoldable pub force_close : TcpConnection → TcpConnection
unfolding late_force_close
force_close c = if is_open c then late_force_close c else c

-- forceCloseWithDelay: the timer calls forceClose, while the connection exists.
unfoldable pub late_force_close_with_delay : TcpConnection → TcpConnection
late_force_close_with_delay c = enqueue force_close_after_delay (record c { state = disconnecting })

-- forceCloseWithDelay, in the loop's thread.
unfoldable pub force_close_with_delay : TcpConnection → TcpConnection
unfolding late_force_close_with_delay
force_close_with_delay c = if is_open c then late_force_close_with_delay c else c

unfoldable pub handle_close : TcpConnection → Option TcpConnection
handle_close c = do
  check (is_open c)
  some (
      call close (
        call (connection false)
          (record c { state = disconnected; channel = disable_all c.channel })))

-- forceCloseInLoop
unfoldable pub force_close_now : TcpConnection → Option TcpConnection
unfolding handle_close
force_close_now c = if is_open c then handle_close c else some c

-- startReadInLoop
unfoldable pub start_read_now : TcpConnection → TcpConnection
start_read_now c =
    if not c.reading || not (is_reading c.channel)
    then record c { channel = enable_reading c.channel; reading = true }
    else c

-- stopReadInLoop
unfoldable pub stop_read_now : TcpConnection → TcpConnection
stop_read_now c =
    if c.reading || is_reading c.channel
    then record c { channel = disable_reading c.channel; reading = false }
    else c

unfoldable pub connect_established : TcpConnection → Option TcpConnection
connect_established c = do
  check (is_state c.state connecting)
  some (
      call (connection true)
        (record c { state = connected; channel = enable_reading (tie c.channel) }))

unfoldable pub connect_destroyed : TcpConnection → Option TcpConnection
connect_destroyed c = do
  let c' =
      if is_connected c
      then call (connection false)
          (record c { state = disconnected; channel = disable_all c.channel })
      else c
  ch ← Channel.remove c'.channel
  some (record c' { channel = ch })

-- `handleError` only logs.
unfoldable pub handle_read : TcpConnection → ReadResult → Option TcpConnection
unfolding handle_close
handle_read c (received b) = some (call message (record c { input_buffer = b }))
handle_read c closed = handle_close c
handle_read c read_failed = some c

-- handleWrite, when the channel is writing and the socket has taken some bytes.
unfoldable pub after_flush : TcpConnection → TcpConnection
unfolding shutdown_now
after_flush c =
    let c' =
      enqueue_if c.write_complete_set write_complete
        (record c { channel = disable_writing c.channel }) in
    if is_state c'.state disconnecting then shutdown_now c' else c'

unfoldable pub flush : TcpConnection → ℕ → Option TcpConnection
unfolding after_flush
flush c n = do
  b ← retrieve c.output_buffer n
  let c' = record c {
    output_buffer = b;
    wire =
        c.wire
        ++ take n (
            Buffer.bytes_at c.output_buffer c.output_buffer.reader_index
              (readable_bytes c.output_buffer));
  }
  some (if readable_bytes b == 0 then after_flush c' else c')

unfoldable pub handle_write : TcpConnection → WriteResult → Option TcpConnection
unfolding flush
handle_write c (wrote n) =
    if is_writing c.channel then (if n == 0 then some c else flush c n) else some c
handle_write c (failed e) = some c

-- A functor from the queue, in the loop's thread. The user's callbacks come from outside.
unfoldable pub run_functor : TcpConnection → Functor → WriteResult → Option TcpConnection
unfolding send_now shutdown_now force_close_now start_read_now stop_read_now force_close
run_functor c write_complete r = some c
run_functor c (high_water_mark n) r = some c
run_functor c (send_in_loop bytes) r = send_now c bytes r
run_functor c shutdown_in_loop r = some (shutdown_now c)
run_functor c force_close_in_loop r = force_close_now c
run_functor c start_read_in_loop r = some (start_read_now c)
run_functor c stop_read_in_loop r = some (stop_read_now c)
run_functor c force_close_after_delay r = some (force_close c)

-- What the loop, the user and the server call, in the loop's thread unless said otherwise. In another
-- thread, shutdown, forceClose and forceCloseWithDelay first read the state, which changes nothing,
-- and go on later: the events `late`.
pub data Event : Type 0 where
  establish destroy shuts force force_later : Event
  late_shuts late_force late_force_later : Event
  sends : Bool → List ℕ → WriteResult → Event
  readable : ReadResult → Event
  writable : WriteResult → Event
  runs : Functor → WriteResult → Event

unfoldable pub step : TcpConnection → Event → Option TcpConnection
unfolding connect_established connect_destroyed force_close force_close_with_delay send shutdown
    late_shutdown late_force_close late_force_close_with_delay handle_read handle_write run_functor
step c establish = connect_established c
step c destroy = connect_destroyed c
step c force = some (force_close c)
step c force_later = some (force_close_with_delay c)
step c (sends in_loop_thread bytes r) = send c in_loop_thread bytes r
step c shuts = some (shutdown c)
step c late_shuts = some (late_shutdown c)
step c late_force = some (late_force_close c)
step c late_force_later = some (late_force_close_with_delay c)
step c (readable r) = handle_read c r
step c (writable r) = handle_write c r
step c (runs f r) = run_functor c f r
