-- ===== src/Channel.antt =====
-- net/Channel.h and net/Channel.cc. The event masks have the values of poll.h on Linux. A callback
-- is a constructor of `Callback` for each of the four that an owner may set; the handler returns
-- those that it calls, in order. The log lines are left out.
pub mod Events
mod Dispatch
mod Tests
use Prim.Native.Nat.{bit_and, bit_or}
use libanet.Common.{
  ℕ, Bool, true, false, not, ◌&&◌, Option, none, some, List, [], ◌∷◌, ◌++◌, ◌==◌, if◌then◌else◌,
  ◌-◌,
}
use libanet.Common.Int.{ℤ, negsuc}
use libanet.Common.Options.{◌>>=◌, ◌>>◌, check}

-- poll.h
abbrev pub pollin : ℕ
pollin = 0x001

abbrev pub pollpri : ℕ
pollpri = 0x002

abbrev pub pollout : ℕ
pollout = 0x004

abbrev pub pollerr : ℕ
pollerr = 0x008

abbrev pub pollhup : ℕ
pollhup = 0x010

abbrev pub pollnval : ℕ
pollnval = 0x020

abbrev pub pollrdhup : ℕ
pollrdhup = 0x2000

abbrev pub none_event : ℕ
none_event = 0

-- POLL_IN | POLLPRI, where POLL_IN is 1, as POLLIN is.
abbrev pub read_event : ℕ
read_event = 3

abbrev pub write_event : ℕ
write_event = 4

-- The test `flags & mask` of a condition.
unfoldable pub has : ℕ → ℕ → Bool
has flags mask = not (bit_and flags mask == 0)

-- flags & ~mask, for flags below 2 ^ 32.
abbrev pub clear : ℕ → ℕ → ℕ
clear flags mask = bit_and flags (0xffffffff - mask)

pub record Channel : Type 0 where
  pub fd : ℕ
  pub events : ℕ
  pub revents : ℕ
  pub index : ℤ
  pub log_hup : Bool
  pub tied : Bool
  pub event_handling : Bool
  pub added_to_loop : Bool

unfoldable pub create : ℕ → Channel
create fd = record {
  fd = fd;
  events = 0;
  revents = 0;
  index = negsuc 0;
  log_hup = true;
  tied = false;
  event_handling = false;
  added_to_loop = false;
}

abbrev pub is_none_event : Channel → Bool
is_none_event c = c.events == none_event

abbrev pub is_writing : Channel → Bool
is_writing c = has c.events write_event

abbrev pub is_reading : Channel → Bool
is_reading c = has c.events read_event

-- `update`, up to the call of the loop: the poller takes the channel as it is now.
unfoldable pub update : Channel → Channel
update c = record c { added_to_loop = true }

unfoldable pub enable_reading : Channel → Channel
unfolding update
enable_reading c = update (record c { events = bit_or c.events read_event })

unfoldable pub disable_reading : Channel → Channel
unfolding update
disable_reading c = update (record c { events = clear c.events read_event })

unfoldable pub enable_writing : Channel → Channel
unfolding update
enable_writing c = update (record c { events = bit_or c.events write_event })

unfoldable pub disable_writing : Channel → Channel
unfolding update
disable_writing c = update (record c { events = clear c.events write_event })

unfoldable pub disable_all : Channel → Channel
unfolding update
disable_all c = update (record c { events = none_event })

-- `remove`, up to the call of the loop.
unfoldable pub remove : Channel → Option Channel
remove c = do check (is_none_event c); some (record c { added_to_loop = false })

unfoldable pub tie : Channel → Channel
tie c = record c { tied = true }

pub data Callback : Type 0 where
  on_close on_error on_read on_write : Callback

-- Which callbacks the owner has set.
pub record Handlers : Type 0 where
  pub close_set : Bool
  pub error_set : Bool
  pub read_set : Bool
  pub write_set : Bool

abbrev pub call_if : Bool → Callback → List Callback
call_if b cb = if b then cb ∷ [] else []

-- handleEventWithGuard
unfoldable pub handle_event_with_guard : Handlers → ℕ → List Callback
handle_event_with_guard h revents =
    call_if ((has revents pollhup && not (has revents pollin)) && h.close_set) on_close
    ++ (call_if (has revents (bit_or pollerr pollnval) && h.error_set) on_error
        ++ (call_if (has revents (bit_or (bit_or pollin pollpri) pollrdhup) && h.read_set) on_read
            ++ call_if (has revents pollout && h.write_set) on_write))

-- handleEvent: `alive` is whether the object that the channel is tied to can still be locked.
unfoldable pub handle_event : Handlers → Channel → Bool → List Callback
unfolding handle_event_with_guard
handle_event h c alive =
    if c.tied
    then (if alive then handle_event_with_guard h c.revents else [])
    else handle_event_with_guard h c.revents
