-- ===== src/PollPoller/Tests.antt =====
-- A poller with one channel, and the theorems on it.
use libanet.Common.{
  ℕ, zero, suc, ◌≡◌, refl, sym, ap, subst, ◌∙◌, inl, inr, ◌&&◌, ◌==◌, none, some, [], ◌∷◌,
  get_elem?,
}
use mathlib.Core.Option.{some-injective, none-ne-some}
use libanet.Common.Int.{pos}
use libanet.Channel.{create}
use libanet.PollPoller.{
  PollFd, PollPoller, ignored, is_ignored, assign, update_channel, remove_channel,
}
use libanet.PollPoller.Places.{equal_or_not, assign_other, IsOwned, IsPlaced, Inv}
use libanet.PollPoller.Update.{Updated, is_new, update_channel-Updated}
use libanet.PollPoller.Remove.{Removed, IsIgnored, remove_channel-Removed}

-- Channel 1 has descriptor 4.
abbrev no_channels : PollPoller
no_channels = record { pollfds = []; channels = λ k. none; store = λ k. create 4 }

abbrev entry : PollFd
entry = record { fd = ignored 4; events = 0; revents = 0 }

-- It waits for no events.
abbrev one_channel : PollPoller
one_channel = record {
  pollfds = entry ∷ [];
  channels = assign (λ k. none) 4 (some 1);
  store = λ k. record (create 4) { index = pos 0 };
}

no_channels-Inv : Inv no_channels
no_channels-Inv = record {
  owned = λ i e h. absurd (none-ne-some e h);
  placed = λ k c h. absurd (none-ne-some c h);
}

one_channel-Inv : Inv one_channel
unfolding create
one_channel-Inv = record { owned = entries; placed = listed }
  where
    entries : (i : ℕ) (e : PollFd) → get_elem? (entry ∷ []) i ≡ some e → IsOwned one_channel i e
    entries zero e h =
        subst (IsOwned one_channel 0) (some-injective entry e h)
          (record { channel = 1; listed = refl; same_fd = refl; index = refl })
    entries (suc i) e h = absurd (none-ne-some e h)

    listed : (fd c : ℕ) → one_channel.channels fd ≡ some c → IsPlaced one_channel fd c
    listed fd c h = elim (equal_or_not fd 4) [
      | inl e ↦ record {
        place = 0;
        entry = entry;
        here = refl;
        same_fd = sym e;
        index = refl;
        owner = sym e;
      }
      | inr n ↦ absurd (none-ne-some c (sym (assign_other (λ k. none) 4 (some 1) fd n) ∙ h))
    ]

entry-IsIgnored : IsIgnored one_channel 1
unfolding create
entry-IsIgnored zero e i h =
    ap (λ x. is_ignored x.fd 4 && x.events == 0) (sym (some-injective entry e h))
entry-IsIgnored (suc j) e i h = absurd (none-ne-some e h)

update_channel-Updated_example :
    (p' : PollPoller) × (update_channel no_channels 1 ≡ some p') × Updated no_channels 1 p'
unfolding create
update_channel-Updated_example =
    update_channel-Updated no_channels 1 no_channels-Inv (is_new 0 refl refl)

remove_channel-Removed_example :
    (p' : PollPoller) × (remove_channel one_channel 1 ≡ some p')
    × Removed one_channel (one_channel.store 1).fd p'
unfolding create
remove_channel-Removed_example =
    remove_channel-Removed one_channel 1 one_channel-Inv refl refl entry-IsIgnored
