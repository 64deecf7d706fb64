-- ===== src/EpollPoller/Tests.antt =====
-- A poller with one channel, and the theorems at concrete inputs.
use libanet.Common.{ℕ, ◌≡◌, ◌≢◌, refl, ap, true, false, none, some, [], ◌∷◌}
use mathlib.Core.Bool.{true≢false}
use libanet.Common.Int.{ℤ, negsuc}
use libanet.Channel.{Channel}
use libanet.EpollPoller.{
  EpollPoller, ctl_add, added, is_index, assign, update_channel, remove_channel,
}
use libanet.EpollPoller.Registration.{
  is_new, is_added, Registered, accepts, interest, update_channel-Registered,
  remove_channel-Registered,
}

abbrev channel_of : ℤ → ℕ → Channel
channel_of index events = record {
  fd = 5;
  events = events;
  revents = 0;
  index = index;
  log_hup = true;
  tied = false;
  event_handling = false;
  added_to_loop = true;
}

abbrev empty_poller : EpollPoller
empty_poller = record { channels = λ fd. none; requests = [] }

-- The channel of descriptor 5 has been added and then has no event.
abbrev poller : EpollPoller
poller = record {
  channels = assign (λ fd. none) 5 (some 77);
  requests = record { operation = ctl_add; fd = 5; events = 3; ptr = 77 } ∷ [];
}

update_channel-Registered_example :
    (r : EpollPoller × Channel) × (update_channel empty_poller 77
        (channel_of (negsuc 0) 3)
        (accepts false)
      ≡ some r)
    × Registered empty_poller 77 (channel_of (negsuc 0) 3) r
unfolding interest
update_channel-Registered_example =
    update_channel-Registered empty_poller 77 (channel_of (negsuc 0) 3) (accepts false) (λ op. refl)
      (is_new refl refl refl)

remove_channel-Registered_example :
    (r : EpollPoller × Channel) × (remove_channel poller 77 (channel_of added 0) (accepts true)
      ≡ some r)
    × Registered poller 77 (channel_of added 0) r
    × (r.0.channels 5 ≡ none)
unfolding interest
remove_channel-Registered_example =
    remove_channel-Registered poller 77 (channel_of added 0) (accepts true) (λ op. refl)
      (is_added refl refl refl) not_new refl
  where
    not_new : added ≢ negsuc 0
    not_new e = true≢false (ap (λ i. is_index i added) e)
