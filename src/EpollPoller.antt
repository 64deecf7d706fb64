-- ===== src/EpollPoller.antt =====
-- net/EpollPoller.h and net/EpollPoller.cc: the registration of channels. A Channel * is a number, a
-- channel's fields are an argument, and what epoll_ctl answers to an operation is another. `none` is
-- an assert that fails, or LOG_SYSFATAL. The wait for events is not modelled.
mod Registration
mod Tests
use libanet.Common.{
  ℕ, zero, suc, ◌+◌, Bool, true, false, ◌||◌, Option, none, some, List, [], ◌∷◌, ◌++◌, ◌==◌,
  if◌then◌else◌,
}
use libanet.Common.Int.{ℤ, pos, negsuc, pos_part, neg_part}
use libanet.Common.Options.{◌>>=◌, ◌>>◌, check}
use libanet.Channel.{Channel, is_none_event}

-- kNew, kAdded and kDeleted
abbrev pub new : ℤ
new = negsuc 0

abbrev pub added : ℤ
added = pos 1

abbrev pub deleted : ℤ
deleted = pos 2

abbrev pub is_index : ℤ → ℤ → Bool
is_index a b = pos_part a + neg_part b == pos_part b + neg_part a

pub data Operation : Type 0 where
  ctl_add ctl_mod ctl_del : Operation

-- A call of epoll_ctl
pub record Request : Type 0 where
  pub operation : Operation
  pub fd : ℕ
  pub events : ℕ
  pub ptr : ℕ

-- The map of channels, and the calls of epoll_ctl so far that succeeded, the last one first.
pub record EpollPoller : Type 0 where
  pub channels : ℕ → Option ℕ
  pub requests : List Request

abbrev pub assign : (ℕ → Option ℕ) → ℕ → Option ℕ → ℕ → Option ℕ
assign m fd v k = if k == fd then v else m k

abbrev pub is_fatal : Operation → Bool
is_fatal ctl_del = false
is_fatal ctl_add = true
is_fatal ctl_mod = true

-- EPollPoller::update, where `ok` says whether epoll_ctl succeeds
unfoldable pub update :
    EpollPoller → Operation → ℕ → Channel → (Operation → Bool) → Option EpollPoller
update e op channel c ok =
    if ok op
    then some (record e {
      requests =
          record { operation = op; fd = c.fd; events = c.events; ptr = channel } ∷ e.requests;
    })
    else if is_fatal op
    then none
    else some e

abbrev pub is_at : Option ℕ → ℕ → Bool
is_at none channel = false
is_at (some p) channel = p == channel

abbrev pub is_absent : Option ℕ → Bool
is_absent none = true
is_absent (some p) = false

-- A channel that is new, or was deleted from the kernel's list
unfoldable pub add_channel :
    EpollPoller → ℕ → Channel → (Operation → Bool) → Option (EpollPoller × Channel)
unfolding update
add_channel e channel c ok = do
  check (
      if is_index c.index new then is_absent (e.channels c.fd) else is_at (e.channels c.fd) channel)
  let m = if is_index c.index new then assign e.channels c.fd (some channel) else e.channels
  let c' = record c { index = added }
  e' ← update (record e { channels = m }) ctl_add channel c' ok
  some (e', c')

unfoldable pub update_channel :
    EpollPoller → ℕ → Channel → (Operation → Bool) → Option (EpollPoller × Channel)
unfolding update add_channel
update_channel e channel c ok =
    if is_index c.index new || is_index c.index deleted then add_channel e channel c ok else (do
      check (is_at (e.channels c.fd) channel)
      check (is_index c.index added)
      (if is_none_event c
          then (do e' ← update e ctl_del channel c ok; some (e', record c { index = deleted }))
          else (do e' ← update e ctl_mod channel c ok; some (e', c))))

unfoldable pub remove_channel :
    EpollPoller → ℕ → Channel → (Operation → Bool) → Option (EpollPoller × Channel)
unfolding update
remove_channel e channel c ok = do
  check (is_at (e.channels c.fd) channel)
  check (is_none_event c)
  check (is_index c.index added || is_index c.index deleted)
  let erased = record e { channels = assign e.channels c.fd none }
  e' ← (if is_index c.index added then update erased ctl_del channel c ok else some erased)
  some (e', record c { index = new })

-- Poller::hasChannel
unfoldable pub has_channel : EpollPoller → ℕ → Channel → Bool
has_channel e channel c = is_at (e.channels c.fd) channel

-- fillActiveChannels, for the events and pointers that epoll_wait reports and the channels to which
-- the pointers lead: the active channels, in order.
unfoldable pub fill_active_channels :
    EpollPoller → (ℕ → Option Channel) → List (ℕ × ℕ) → Option (List Channel)
fill_active_channels e store [] = some []
fill_active_channels e store ((events, ptr) ∷ reports) =
    let rest = fill_active_channels e store reports in
    (do
      channel ← store ptr
      check (is_at (e.channels channel.fd) ptr)
      active ← rest
      some (record channel { revents = events } ∷ active))
