-- ===== src/Lib.antt =====
-- libanet: a library of event loops for TCP, and the basic types that it stands on.
--
-- The program. A connection (net/TcpConnection) owns a channel (net/Channel), which keeps the
-- events that a file descriptor waits for, and two buffers (net/Buffer). The event loop hands the
-- events that the operating system reports to the channel (net/EpollPoller keeps it registered),
-- which calls the handlers of the connection; these write what waits in the output buffer, or
-- close. base/LogStream writes numbers and strings into the buffer of a log line, base/Date counts
-- days, and base/TimeZone turns seconds into dates and times. base/BlockingQueue,
-- base/BoundedBlockingQueue and base/CountDownLatch join threads, and net/EventLoopThreadPool has
-- the loops among which connections are shared out.
--
-- The files.
--   Common         the names that all modules share. Its children: Tests has Boolean tests, Lists the
--                  lists over native numbers, Int the signed integers with the division of C, Ints the int
--                  of 32 bits, Options code that may abort, Words the arithmetic of size_t, and Slices the copies between
--                  byte ranges.
--   Buffer         net/Buffer.h and net/Buffer.cc. Space is about its invariant and its contents, Bytes
--                  about appending and retrieving, Refinement compares the operations with those on a
--                  sequence of bytes, Integers is about numbers in network order, and Search about
--                  findCRLF and findEOL.
--   Channel        net/Channel.h and net/Channel.cc. Events is about the masks of events, Dispatch about
--                  the callbacks of handleEvent.
--   TcpConnection  net/TcpConnection.h and net/TcpConnection.cc. Output has the invariant of the output
--                  path, Send is about sendInLoop, Write about handleWrite, States about the state and
--                  what the user is told, and Run about runs of sends and write events.
--   LogStream      base/LogStream.h and base/LogStream.cc. Digits has the digits of a number in a base,
--                  Numbers is about convert and convertHex, Lines about what a buffer takes.
--   Date           base/Date.h and base/Date.cc. Days counts the days of years that begin in March,
--                  Calendar has the calendar, Exact compares what the code computes with it, Bounds
--                  is about the range of int, and RoundTrip about both conversions.
--   TimeZone       base/TimeZone.h and base/TimeZone.cc. SplitDay and UtcTime are about toUtcTime and
--                  fromUtcTime, Transitions about findLocalTime.
--   Condition      base/Condition.h: how many threads sleep and how many have been woken. Counts is
--                  about these numbers.
--   BlockingQueue  base/BlockingQueue.h. Runs is about runs of several threads.
--   BoundedBlockingQueue
--                  base/BoundedBlockingQueue.h. Runs is about runs of several threads.
--   Timestamp      base/Timestamp.h. UnixTime is about fromUnixTime.
--   CountDownLatch base/CountDownLatch.h and base/CountDownLatch.cc. Waiters is about
--                  the threads that wait.
--   EventLoopThreadPool
--                  net/EventLoopThreadPool.h and net/EventLoopThreadPool.cc. RoundRobin is about the
--                  loops that it gives out.
--   EpollPoller    net/EpollPoller.h and net/EpollPoller.cc. Registration is about the map of channels and
--                  the list of the kernel.
--   TimerQueue     net/TimerQueue.h, net/TimerQueue.cc, net/Timer.h and net/Timer.cc. Entries has the timer
--                  and the ordered sets, Sets is about them, Invariant has the queue's invariant; Insert,
--                  Cancel and Moved are about the changes of a queue, Expiry, Expired and Remaining about
--                  getExpired, Callbacks about what callbacks do, and Steps about reset and runs.
--   EventLoop      net/EventLoop.h and net/EventLoop.cc. Wakeup is about the wait for events, Order about
--                  the queue of functors, and Progress about when they are called.
--   AsyncLogging   base/AsyncLogging.h and base/AsyncLogging.cc. Buffers has the invariant of the buffers,
--                  Writer is about the thread that writes, and Order about the lines of a run.
--   ThreadPool     base/ThreadPool.h and base/ThreadPool.cc. Looks is about the looks at the queue, Runs
--                  about runs of several threads.
--   PollPoller     net/PollPoller.h and net/PollPoller.cc. Places has the invariant that ties the vector to
--                  the channels, Update and Remove are about the two operations.
--   StringPiece    base/StringPiece.h. Order has the order of sequences of bytes, with which Operators
--                  compares the operators.
--   FileUtil       AppendFile of base/FileUtil.h and base/FileUtil.cc. Append is about its loop.
--   LogFile        base/LogFile.h and base/LogFile.cc. Rolling is about a line and the files.
-- The module Tests of a component has runs at concrete inputs.
--
-- How the code is modelled. A function keeps its name in snake case, and an object is a record that
-- an operation takes and returns. `none` is an assert that fails, an exception, or a read out of
-- range. A size_t is a number below 2 ^ 64 whose sums and differences wrap around; an int of
-- base/Date and base/TimeZone has 32 bits: a conversion to it keeps the low ones, and a sum or a
-- product that it does not hold is `none`, since C++ leaves it undefined. An int64_t of
-- base/TimeZone and base/Timestamp is an integer without bounds. A system call is an
-- argument: its result for write(2) and read(2), with what the call is known to keep to as a
-- hypothesis where a property needs it. What the library's callbacks and the loop are asked to do
-- is recorded in lists, in order. The queue of a connection holds the functors that it has put into
-- its loop.
--
-- Loops. `convert` divides with fuel for 20 digits and `convert_hex` for 16, which suffice for
-- integers of 64 bits, of which `convert` has at most 20 digits. The loop of AppendFile::append has
-- fuel for as many turns as there are bytes, which suffices since every turn without an error writes
-- one. Every other loop is structural.
--
-- Where threads share an object, a step is what a thread does while it holds the mutex, and a run
-- is a sequence of steps of any threads. The state of a connection has no mutex: what another thread
-- does with it after its test of the state is a step of its own.
--
-- Not modelled: the wait for events itself, the server, its acceptor and its threads; sockets and
-- addresses; the names of the log's files and the prefix of a line; and what formats text by
-- snprintf. They call the operating system for the most part.
pub mod AsyncLogging
pub mod BlockingQueue
pub mod BoundedBlockingQueue
pub mod Buffer
pub mod Channel
pub mod Common
pub mod Condition
pub mod CountDownLatch
pub mod Date
pub mod EpollPoller
pub mod EventLoop
pub mod EventLoopThreadPool
pub mod FileUtil
pub mod LogFile
pub mod LogStream
pub mod PollPoller
pub mod StringPiece
pub mod TcpConnection
pub mod ThreadPool
pub mod TimeZone
pub mod TimerQueue
pub mod Timestamp
