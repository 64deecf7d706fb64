-- ===== src/PollPoller/Update.antt =====
-- `updateChannel` of net/PollPoller.cc.
use libanet.Common.{
  ℕ, ◌-◌, ◌≡◌, ◌≢◌, inl, inr, refl, sym, ap, subst, ◌∙◌, true, ◌||◌, none, some, [], ◌∷◌, ◌++◌,
  length, length-append, get_elem?, set, get_elem?-set_self, get_elem?-set_ne, ◌==◌, lt→ltb,
  if◌then◌else◌, arith, Bool-cases,
}
use mathlib.Core.Option.{some-injective, none-ne-some}
use libanet.Common.Int.{ℤ, pos, negsuc, neg_part}
use libanet.Channel.{Channel, is_none_event}
use libanet.PollPoller.{
  PollFd, PollPoller, ignored, is_descriptor, is_ignored, assign, descriptor, pollfd_of,
  add_channel, change_channel, update_at, update_channel,
}
use libanet.PollPoller.Places.{
  get_elem?-bound, get_elem?-append, get_elem?-append_old, get_elem?-append_last, equal_or_not,
  assign_self, assign_other, IsOwned, IsPlaced, Inv,
}

-- What an update leaves: the channel is in the map, and the other descriptors are as they were.
pub record Updated (p : PollPoller) (channel : ℕ) (p' : PollPoller) : Type 0 where
  pub inv : Inv p'
  pub listed : p'.channels (p.store channel).fd ≡ some channel
  pub others : (fd : ℕ) → fd ≢ (p.store channel).fd → p'.channels fd ≡ p.channels fd

negative_ne : (m n : ℕ) → negsuc m ≢ pos n
negative_ne m n h = absurd (omega (arith, ap neg_part h))

module _ (p : PollPoller) (channel n : ℕ) (v : Inv p)
    (negative : (p.store channel).index ≡ negsuc n)
    (absent : p.channels (p.store channel).fd ≡ none) where
  abbrev c : Channel
  c = p.store channel

  abbrev place : ℕ
  place = length (p.pollfds ++ (pollfd_of c ∷ [])) - 1

  abbrev added : PollPoller
  added = record {
    pollfds = p.pollfds ++ (pollfd_of c ∷ []);
    channels = assign p.channels c.fd (some channel);
    store = assign p.store channel (record c { index = pos place });
  }

  last_place : place ≡ length p.pollfds
  last_place = omega (arith, length-append p.pollfds (pollfd_of c ∷ []))

  -- A channel with an index is another one.
  store_old : (k i : ℕ) → (p.store k).index ≡ pos i → added.store k ≡ p.store k
  store_old k i h =
      assign_other p.store channel _ k
        (λ e. negative_ne n i (sym negative ∙ ap (λ j. (p.store j).index) (sym e) ∙ h))

  store_new : added.store channel ≡ record c { index = pos place }
  store_new = assign_self p.store channel (record c { index = pos place })

  added-IsOwned : (i : ℕ) (e : PollFd) → get_elem? added.pollfds i ≡ some e → IsOwned added i e
  added-IsOwned i e h = elim (get_elem?-append p.pollfds (pollfd_of c) i e h) [
    | inl k ↦
        let o = v.owned i e k in
        record {
          channel = o.channel;
          listed =
              assign_other p.channels c.fd (some channel) (descriptor e.fd)
                (λ same. none-ne-some o.channel (sym absent ∙ ap p.channels (sym same) ∙ o.listed))
              ∙ o.listed;
          same_fd = ap (λ x. x.fd) (store_old o.channel i o.index) ∙ o.same_fd;
          index = ap (λ x. x.index) (store_old o.channel i o.index) ∙ o.index;
        }
    | inr k ↦ subst (IsOwned added i) (sym k.1) (record {
      channel = channel;
      listed = assign_self p.channels c.fd (some channel);
      same_fd = ap (λ x. x.fd) store_new;
      index = ap (λ x. x.index) store_new ∙ ap pos (last_place ∙ sym k.0);
    })
  ]

  added-IsPlaced : (fd k : ℕ) → added.channels fd ≡ some k → IsPlaced added fd k
  added-IsPlaced fd k h = elim (equal_or_not fd c.fd) [
    | inl e ↦
        let itself : channel ≡ k =
          some-injective channel k
            (sym (assign_self p.channels c.fd (some channel)) ∙ ap added.channels (sym e) ∙ h) in
        subst (IsPlaced added fd) itself (record {
          place = place;
          entry = pollfd_of c;
          here =
              ap (get_elem? added.pollfds) last_place
              ∙ get_elem?-append_last p.pollfds (pollfd_of c);
          same_fd = ap (λ x. x.fd) store_new ∙ sym e;
          index = ap (λ x. x.index) store_new;
          owner = sym e;
        })
    | inr other ↦
        let q = v.placed fd k (sym (assign_other p.channels c.fd (some channel) fd other) ∙ h) in
        record {
          place = q.place;
          entry = q.entry;
          here = get_elem?-append_old p.pollfds (pollfd_of c ∷ []) q.place q.entry q.here;
          same_fd = ap (λ x. x.fd) (store_old k q.place q.index) ∙ q.same_fd;
          index = ap (λ x. x.index) (store_old k q.place q.index) ∙ q.index;
          owner = q.owner;
        }
  ]

  add_channel-Updated :
      (p' : PollPoller) × (update_channel p channel ≡ some p') × Updated p channel p'
  unfolding update_channel update_at add_channel
  add_channel-Updated = (
    added,
    rw (negative, absent) refl,
    record {
      inv = record { owned = added-IsOwned; placed = added-IsPlaced };
      listed = assign_self p.channels c.fd (some channel);
      others = λ fd h. assign_other p.channels c.fd (some channel) fd h;
    },
  )

is_of : (fd : ℤ) (n : ℕ) → descriptor fd ≡ n → (is_descriptor fd n || is_ignored fd n) ≡ true
is_of (pos m) n h = ground arith
is_of (negsuc m) n h = ground arith

pub itself : (n : ℕ) → (n == n) ≡ true
itself n = ground arith

module _ (p : PollPoller) (channel : ℕ) (v : Inv p)
    (listed : p.channels (p.store channel).fd ≡ some channel) where
  q : IsPlaced p (p.store channel).fd channel
  q = v.placed (p.store channel).fd channel listed

  written : PollFd
  written =
      if is_none_event (p.store channel)
      then record (pollfd_of (p.store channel)) { fd = ignored (p.store channel).fd }
      else pollfd_of (p.store channel)

  written-descriptor : descriptor written.fd ≡ (p.store channel).fd
  unfolding written
  written-descriptor = elim (Bool-cases (is_none_event (p.store channel))) [
    | inl idle ↦ rw idle refl
    | inr busy ↦ rw busy refl
  ]

  changed : PollPoller
  changed = record p { pollfds = set p.pollfds q.place written }

  changed-IsOwned :
      (i : ℕ) (e : PollFd) → get_elem? changed.pollfds i ≡ some e → IsOwned changed i e
  unfolding changed
  changed-IsOwned i e h = elim (equal_or_not q.place i) [
    | inl here ↦
        let bound = get_elem?-bound p.pollfds q.place q.entry q.here in
        let k : written ≡ e = some-injective written e (
          sym (get_elem?-set_self p.pollfds q.place written bound)
          ∙ ap (get_elem? changed.pollfds) here
          ∙ h) in
        subst (IsOwned changed i) k (record {
          channel = channel;
          listed = ap p.channels written-descriptor ∙ listed;
          same_fd = sym written-descriptor;
          index = q.index ∙ ap pos here;
        })
    | inr other ↦
        let o = v.owned i e (sym (get_elem?-set_ne p.pollfds written other) ∙ h) in
        record { channel = o.channel; listed = o.listed; same_fd = o.same_fd; index = o.index }
  ]

  changed-IsPlaced : (fd k : ℕ) → changed.channels fd ≡ some k → IsPlaced changed fd k
  unfolding changed
  changed-IsPlaced fd k h =
      let r = v.placed fd k h in
      elim (equal_or_not q.place r.place) [
        | inl here ↦
            let same : r.entry ≡ q.entry =
              some-injective r.entry q.entry
                (sym r.here ∙ ap (get_elem? p.pollfds) (sym here) ∙ q.here) in
            record {
              place = q.place;
              entry = written;
              here =
                  get_elem?-set_self p.pollfds q.place written
                    (get_elem?-bound p.pollfds q.place q.entry q.here);
              same_fd = r.same_fd;
              index = r.index ∙ ap pos (sym here);
              owner =
                  written-descriptor ∙ sym q.owner ∙ ap (λ x. descriptor x.fd) (sym same) ∙ r.owner;
            }
        | inr other ↦ record {
          place = r.place;
          entry = r.entry;
          here = get_elem?-set_ne p.pollfds written other ∙ r.here;
          same_fd = r.same_fd;
          index = r.index;
          owner = r.owner;
        }
      ]

  change_channel-Updated :
      (p' : PollPoller) × (update_channel p channel ≡ some p') × Updated p channel p'
  unfolding update_channel update_at change_channel changed written
  change_channel-Updated = (
    changed,
    rw
        (
          q.index,
          listed,
          itself channel,
          lt→ltb q.place (length p.pollfds) (get_elem?-bound p.pollfds q.place q.entry q.here),
          q.here,
          is_of q.entry.fd (p.store channel).fd q.owner,
        )
        refl,
    record {
      inv = record { owned = changed-IsOwned; placed = changed-IsPlaced };
      listed = listed;
      others = λ fd h. refl;
    },
  )

-- A channel that may be given to `updateChannel`: it is new, or in the map.
pub data IsKnown (p : PollPoller) (channel : ℕ) : Type 0 where
  is_new :
      (n : ℕ)
      → (p.store channel).index ≡ negsuc n
      → p.channels (p.store channel).fd ≡ none
      → IsKnown p channel
  is_listed : p.channels (p.store channel).fd ≡ some channel → IsKnown p channel

-- When every entry of the vector is that of the channel in the map whose index is its place, and every
-- channel in the map has such an entry, then for a channel that is new (its index is negative and its
-- descriptor not in the map) or in the map, updateChannel does not abort: the same holds afterwards, the
-- channel is in the map, and the other descriptors are in the map as they were.
pub update_channel-Updated :
    (p : PollPoller) (channel : ℕ)
    → Inv p
    → IsKnown p channel
    → (p' : PollPoller) × (update_channel p channel ≡ some p') × Updated p channel p'
update_channel-Updated p channel v (is_new n i a) = add_channel-Updated p channel n v i a
update_channel-Updated p channel v (is_listed l) = change_channel-Updated p channel v l
