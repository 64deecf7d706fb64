-- ===== src/PollPoller.antt =====
-- net/PollPoller.h and net/PollPoller.cc: the vector that poll(2) is given, and the indexes in it that
-- the channels keep. A Channel * is a number, under which the store has the channel. `none` is an
-- assert that fails. The call of poll itself is not modelled.
mod Places
mod Update
mod Remove
mod Tests
use libanet.Common.{
  ℕ, zero, suc, ◌-◌, Bool, true, false, ◌&&◌, ◌||◌, Option, none, some, List, [], ◌∷◌, ◌++◌, length,
  get_elem?, set, take, ◌==◌, ltb, if◌then◌else◌,
}
use libanet.Common.Int.{ℤ, pos, negsuc, pos_part}
use libanet.Common.Options.{◌>>=◌, ◌>>◌, check}
use libanet.Channel.{Channel, is_none_event}

-- struct pollfd
pub record PollFd : Type 0 where
  pub fd : ℤ
  pub events : ℕ
  pub revents : ℕ

pub record PollPoller : Type 0 where
  pub pollfds : List PollFd
  pub channels : ℕ → Option ℕ
  pub store : ℕ → Channel

-- The descriptor `fd`, and `-fd - 1`, which poll leaves aside.
abbrev pub ignored : ℕ → ℤ
ignored fd = negsuc fd

abbrev pub is_descriptor : ℤ → ℕ → Bool
is_descriptor (pos m) n = m == n
is_descriptor (negsuc m) n = false

abbrev pub is_ignored : ℤ → ℕ → Bool
is_ignored (pos m) n = false
is_ignored (negsuc m) n = m == n

abbrev pub is_at : Option ℕ → ℕ → Bool
is_at none channel = false
is_at (some p) channel = p == channel

abbrev pub is_absent : Option ℕ → Bool
is_absent none = true
is_absent (some p) = false

abbrev pub assign : {A : Type 0} → (ℕ → A) → ℕ → A → ℕ → A
assign m key v k = if k == key then v else m k

abbrev pub set_index : PollPoller → ℕ → ℕ → PollPoller
set_index p channel i = record p {
  store = assign p.store channel (record (p.store channel) { index = pos i });
}

abbrev pub pollfd_of : Channel → PollFd
pollfd_of c = record { fd = pos c.fd; events = c.events; revents = 0 }

-- A channel with a negative index
unfoldable pub add_channel : PollPoller → ℕ → Option PollPoller
add_channel p channel = do
  check (is_absent (p.channels (p.store channel).fd))
  let fd = (p.store channel).fd
  let p' = record p { pollfds = p.pollfds ++ (pollfd_of (p.store channel) ∷ []) }
  let p'' = set_index p' channel (length p'.pollfds - 1)
  some (record p'' { channels = assign p.channels fd (some channel) })

-- A channel with the index i
unfoldable pub change_channel : PollPoller → ℕ → ℕ → Option PollPoller
change_channel p channel i = do
  check (is_at (p.channels (p.store channel).fd) channel)
  check (ltb i (length p.pollfds))
  pfd ← get_elem? p.pollfds i
  check (is_descriptor pfd.fd (p.store channel).fd || is_ignored pfd.fd (p.store channel).fd)
  let pfd' = pollfd_of (p.store channel)
  some (record p {
    pollfds = set p.pollfds i (
        if is_none_event (p.store channel)
        then record pfd' { fd = ignored (p.store channel).fd }
        else pfd');
  })

unfoldable pub update_at : ℤ → PollPoller → ℕ → Option PollPoller
unfolding add_channel change_channel
update_at (negsuc n) p channel = add_channel p channel
update_at (pos i) p channel = change_channel p channel i

unfoldable pub update_channel : PollPoller → ℕ → Option PollPoller
unfolding update_at
update_channel p channel = update_at (p.store channel).index p channel

-- The descriptor of an entry, which may be left aside
abbrev pub descriptor : ℤ → ℕ
descriptor (pos n) = n
descriptor (negsuc n) = n

-- The last entry takes the place i, unless it stands there.
unfoldable pub move_last : PollPoller → ℕ → Option PollPoller
move_last p i =
    if i == length p.pollfds - 1
    then some (record p { pollfds = take (length p.pollfds - 1) p.pollfds })
    else (do
      last ← get_elem? p.pollfds (length p.pollfds - 1)
      channel_at_end ← p.channels (descriptor last.fd)
      some (record (set_index p channel_at_end i) {
        pollfds = take (length p.pollfds - 1) (set p.pollfds i last);
      }))

unfoldable pub remove_at : ℤ → PollPoller → ℕ → Option PollPoller
unfolding move_last
remove_at (negsuc n) p channel = none
remove_at (pos i) p channel = do
  check (ltb i (length p.pollfds))
  pfd ← get_elem? p.pollfds i
  check (is_ignored pfd.fd (p.store channel).fd && pfd.events == (p.store channel).events)
  move_last (record p { channels = assign p.channels (p.store channel).fd none }) i

unfoldable pub remove_channel : PollPoller → ℕ → Option PollPoller
unfolding remove_at
remove_channel p channel = do
  check (is_at (p.channels (p.store channel).fd) channel)
  check (is_none_event (p.store channel))
  remove_at (p.store channel).index p channel

-- fillActiveChannels: the active channels, in order, with what poll reports.
unfoldable pub fill_active_channels : PollPoller → ℕ → List PollFd → Option (List (ℕ × ℕ))
fill_active_channels p zero pfds = some []
fill_active_channels p (suc n) [] = some []
fill_active_channels p (suc n) (pfd ∷ pfds) =
    let rest = fill_active_channels p n pfds in
    let later = fill_active_channels p (suc n) pfds in
    if ltb 0 pfd.revents
    then (do
      channel ← p.channels (descriptor pfd.fd)
      check (is_descriptor pfd.fd (p.store channel).fd)
      active ← rest
      some ((channel, pfd.revents) ∷ active))
    else later
