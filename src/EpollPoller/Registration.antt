-- ===== src/EpollPoller/Registration.antt =====
-- Channels in the map of net/EpollPoller.cc against the interest list of the kernel.
use libanet.Common.{
  ℕ, ◌≡◌, ◌≢◌, refl, ap, ◌∙◌, inl, inr, Bool, true, false, not, Option, none, some, List, [], ◌∷◌,
  ◌==◌, if◌then◌else◌, arith, Bool-cases,
}
use libanet.Common.Int.{ℤ}
use libanet.Channel.{Channel, is_none_event}
use libanet.EpollPoller.{
  EpollPoller, Operation, ctl_add, ctl_mod, ctl_del, Request, new, added, deleted, assign, update,
  add_channel, update_channel, remove_channel,
}

abbrev listed : Operation → Bool
listed ctl_add = true
listed ctl_mod = true
listed ctl_del = false

-- Whether a descriptor is in the kernel's list after the calls of epoll_ctl that succeeded.
unfoldable pub interest : List Request → ℕ → Bool
interest [] fd = false
interest (r ∷ rs) fd = if fd == r.fd then listed r.operation else interest rs fd

-- EEXIST and ENOENT of epoll_ctl
abbrev pub accepts : Bool → Operation → Bool
accepts in_list ctl_add = not in_list
accepts in_list ctl_mod = in_list
accepts in_list ctl_del = in_list

pub data IsKnown (e : EpollPoller) (channel : ℕ) (c : Channel) : Type 0 where
  is_new :
      c.index ≡ new
      → e.channels c.fd ≡ none
      → interest e.requests c.fd ≡ false
      → IsKnown e channel c
  is_added :
      c.index ≡ added
      → e.channels c.fd ≡ some channel
      → interest e.requests c.fd ≡ true
      → IsKnown e channel c
  is_deleted :
      c.index ≡ deleted
      → e.channels c.fd ≡ some channel
      → interest e.requests c.fd ≡ false
      → IsKnown e channel c

-- The other descriptors are as they were.
pub record Registered (e : EpollPoller) (channel : ℕ) (c : Channel) (r : EpollPoller × Channel)
    : Type 0 where
  pub known : IsKnown r.0 channel r.1
  pub same_fd : r.1.fd ≡ c.fd
  pub others :
      (fd : ℕ)
      → fd ≢ c.fd
      → (r.0.channels fd ≡ e.channels fd) × (interest r.0.requests fd ≡ interest e.requests fd)

itself : (n : ℕ) → (n == n) ≡ true
itself n = ground arith

another : (m n : ℕ) → m ≢ n → (m == n) ≡ false
another m n h = ground arith

module _ (e : EpollPoller) (channel : ℕ) (c : Channel) (ok : Operation → Bool)
    (answers : (op : Operation) → ok op ≡ accepts (interest e.requests c.fd) op) where
  request : Operation → EpollPoller → EpollPoller
  request op f = record f {
    requests = record { operation = op; fd = c.fd; events = c.events; ptr = channel } ∷ e.requests;
  }

  accepted : (op : Operation) (b : Bool) → interest e.requests c.fd ≡ b → ok op ≡ accepts b op
  accepted op b h = answers op ∙ ap (λ i. accepts i op) h

  update-add_new :
      c.index ≡ new
      → e.channels c.fd ≡ none
      → interest e.requests c.fd ≡ false
      → update_channel e channel c ok
        ≡ some (
          request ctl_add (record e { channels = assign e.channels c.fd (some channel) }),
          record c { index = added },
        )
  unfolding update_channel add_channel update request
  update-add_new i m l = rw (i, m, accepted ctl_add false l) refl

  update-add_deleted :
      c.index ≡ deleted
      → e.channels c.fd ≡ some channel
      → interest e.requests c.fd ≡ false
      → update_channel e channel c ok ≡ some (request ctl_add e, record c { index = added })
  unfolding update_channel add_channel update request
  update-add_deleted i m l = rw (i, m, itself channel, accepted ctl_add false l) refl

  update-added :
      c.index ≡ added
      → e.channels c.fd ≡ some channel
      → interest e.requests c.fd ≡ true
      → update_channel e channel c ok ≡ (
          if is_none_event c
          then some (request ctl_del e, record c { index = deleted })
          else some (request ctl_mod e, c))
  unfolding update_channel update request
  update-added i m l =
      rw (i, m, itself channel, accepted ctl_del true l, accepted ctl_mod true l) refl

  interest_self :
      (op : Operation) (f : EpollPoller) → interest (request op f).requests c.fd ≡ listed op
  unfolding interest request
  interest_self op f = rw (itself c.fd) refl

  interest_other :
      (op : Operation) (f : EpollPoller) (fd : ℕ)
      → fd ≢ c.fd
      → interest (request op f).requests fd ≡ interest e.requests fd
  unfolding interest request
  interest_other op f fd h = rw (another fd c.fd h) refl

  assigned : (v : Option ℕ) → assign e.channels c.fd v c.fd ≡ v
  assigned v = rw (itself c.fd) refl

  not_assigned : (v : Option ℕ) (fd : ℕ) → fd ≢ c.fd → assign e.channels c.fd v fd ≡ e.channels fd
  not_assigned v fd h = rw (another fd c.fd h) refl

  kept :
      (op : Operation) (index : ℤ)
      → IsKnown (request op e) channel (record c { index = index })
      → Registered e channel c (request op e, record c { index = index })
  unfolding request
  kept op index k = record {
    known = k;
    same_fd = refl;
    others = λ fd h. (refl, interest_other op e fd h);
  }

  -- When epoll_ctl refuses exactly what it must (a descriptor that is already there or that is not),
  -- then for a channel whose index, place in the map and place in the kernel's list agree,
  -- update_channel does not abort: they agree afterwards, and other descriptors are as they were.
  pub update_channel-Registered :
      IsKnown e channel c
      → (r : EpollPoller × Channel) × (update_channel e channel c ok ≡ some r)
        × Registered e channel c r
  unfolding request
  update_channel-Registered (is_new i m l) =
      let f : EpollPoller = record e { channels = assign e.channels c.fd (some channel) } in
      (
        (request ctl_add f, record c { index = added }),
        update-add_new i m l,
        record {
          known = is_added refl (assigned (some channel)) (interest_self ctl_add f);
          same_fd = refl;
          others = λ fd h. (not_assigned (some channel) fd h, interest_other ctl_add f fd h);
        },
      )
  update_channel-Registered (is_deleted i m l) = (
    (request ctl_add e, record c { index = added }),
    update-add_deleted i m l,
    kept ctl_add added (is_added refl m (interest_self ctl_add e)),
  )
  update_channel-Registered (is_added i m l) = elim (Bool-cases (is_none_event c)) [
    | inl nothing ↦ (
      (request ctl_del e, record c { index = deleted }),
      update-added i m l ∙ rw nothing refl,
      kept ctl_del deleted (is_deleted refl m (interest_self ctl_del e)),
    )
    | inr some_event ↦ (
      (request ctl_mod e, c),
      update-added i m l ∙ rw some_event refl,
      kept ctl_mod c.index (is_added i m (interest_self ctl_mod e)),
    )
  ]

  -- Under the same conditions, and for a channel that waits for no event and is not new,
  -- remove_channel does not abort: the channel leaves the map, its index, place in the map and place
  -- in the kernel's list agree afterwards, and other descriptors are as they were.
  pub remove_channel-Registered :
      IsKnown e channel c
      → c.index ≢ new
      → is_none_event c ≡ true
      → (r : EpollPoller × Channel) × (remove_channel e channel c ok ≡ some r)
        × Registered e channel c r
        × (r.0.channels c.fd ≡ none)
  unfolding request remove_channel update
  remove_channel-Registered (is_new i m l) n none_event = absurd (n i)
  remove_channel-Registered (is_deleted i m l) n none_event =
      let f : EpollPoller = record e { channels = assign e.channels c.fd none } in
      (
        (f, record c { index = new }),
        rw (m, itself channel, none_event, i) refl,
        record {
          known = is_new refl (assigned none) l;
          same_fd = refl;
          others = λ fd h. (not_assigned none fd h, refl);
        },
        assigned none,
      )
  remove_channel-Registered (is_added i m l) n none_event =
      let f : EpollPoller = record e { channels = assign e.channels c.fd none } in
      (
        (request ctl_del f, record c { index = new }),
        rw (m, itself channel, none_event, i, accepted ctl_del true l) refl,
        record {
          known = is_new refl (assigned none) (interest_self ctl_del f);
          same_fd = refl;
          others = λ fd h. (not_assigned none fd h, interest_other ctl_del f fd h);
        },
        assigned none,
      )
