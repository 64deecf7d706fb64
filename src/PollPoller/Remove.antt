-- ===== src/PollPoller/Remove.antt =====
-- `removeChannel` of net/PollPoller.cc.
use libanet.Common.{
  ℕ, ◌-◌, ◌<◌, ◌≡◌, ◌≢◌, inl, inr, refl, sym, ap, subst, ◌∙◌, true, false, ◌&&◌, Option, none, some,
  length, get_elem?, set, take, get_elem?-set_self, get_elem?-set_ne, ◌==◌, lt→ltb, arith,
}
use mathlib.Core.Option.{some-injective, none-ne-some}
use libanet.Common.Int.{pos, pos_part}
use libanet.Channel.{is_none_event}
use libanet.PollPoller.{
  PollFd, PollPoller, is_ignored, assign, descriptor, move_last, remove_at, remove_channel,
}
use libanet.PollPoller.Places.{
  get_elem?-bound, get_elem?-some, get_elem?-take, get_elem?-take_old, equal_or_not, assign_self,
  assign_other, IsOwned, IsPlaced, Inv,
}
use libanet.PollPoller.Update.{itself}

-- What a removal leaves: the descriptor is not in the map, and the others are as they were.
pub record Removed (p : PollPoller) (fd : ℕ) (p' : PollPoller) : Type 0 where
  pub inv : Inv p'
  pub absent : p'.channels fd ≡ none
  pub others : (k : ℕ) → k ≢ fd → p'.channels k ≡ p.channels k

module _ (p : PollPoller) (fd channel : ℕ) (v : Inv p) (listed : p.channels fd ≡ some channel) where
  q : IsPlaced p fd channel
  q = v.placed fd channel listed

  place : ℕ
  place = q.place

  channels : ℕ → Option ℕ
  channels = assign p.channels fd none

  bound : place < length p.pollfds
  unfolding place
  bound = get_elem?-bound p.pollfds q.place q.entry q.here

  -- The entries at other places are of other channels.
  other_entry :
      (i : ℕ) (e : PollFd) (o : IsOwned p i e)
      → i ≢ place
      → channels (descriptor e.fd) ≡ some o.channel
  unfolding place channels
  other_entry i e o h =
      assign_other p.channels fd none (descriptor e.fd) (λ same.
        let k : o.channel ≡ channel =
          some-injective o.channel channel (sym o.listed ∙ ap p.channels same ∙ listed) in
        h (ap pos_part (sym o.index ∙ ap (λ c. (p.store c).index) k ∙ q.index)))
      ∙ o.listed

  -- The channels that stay have other entries.
  other_channel :
      (k c : ℕ)
      → channels k ≡ some c
      → (r : IsPlaced p k c) × (r.place ≢ place) × (p.channels k ≡ some c)
  unfolding place channels
  other_channel k c h = elim (equal_or_not k fd) [
    | inl same ↦
        absurd (none-ne-some c (sym (assign_self p.channels fd none) ∙ ap channels (sym same) ∙ h))
    | inr other ↦
        let l = sym (assign_other p.channels fd none k other) ∙ h in
        let r = v.placed k c l in
        (
          r,
          (λ e.
              let s : r.entry ≡ q.entry =
                some-injective r.entry q.entry (sym r.here ∙ ap (get_elem? p.pollfds) e ∙ q.here) in
              other (sym r.owner ∙ ap (λ x. descriptor x.fd) s ∙ q.owner)),
          l,
        )
  ]

  -- The entry is the last one.
  shortened : PollPoller
  shortened = record p { channels = channels; pollfds = take (length p.pollfds - 1) p.pollfds }

  shortened-Inv : place ≡ length p.pollfds - 1 → Inv shortened
  unfolding shortened
  shortened-Inv last = record {
    owned = λ i e h.
        let (less, at) = get_elem?-take (length p.pollfds - 1) p.pollfds i e h in
        let o = v.owned i e at in
        record {
          channel = o.channel;
          listed = other_entry i e o (λ s. omega (arith, s, last, less));
          same_fd = o.same_fd;
          index = o.index;
        };
    placed = λ k c h.
        let (r, other, l) = other_channel k c h in
        let less : r.place < length p.pollfds - 1 =
          omega (arith, get_elem?-bound p.pollfds r.place r.entry r.here, last, other) in
        record {
          place = r.place;
          entry = r.entry;
          here = get_elem?-take_old (length p.pollfds - 1) p.pollfds r.place less ∙ r.here;
          same_fd = r.same_fd;
          index = r.index;
          owner = r.owner;
        };
  }

  -- The last entry takes its place.
  module _ (last : PollFd) (at_end : get_elem? p.pollfds (length p.pollfds - 1) ≡ some last)
      (not_last : place ≢ length p.pollfds - 1) where
    o : IsOwned p (length p.pollfds - 1) last
    o = v.owned (length p.pollfds - 1) last at_end

    moved : PollPoller
    moved = record {
      channels = channels;
      pollfds = take (length p.pollfds - 1) (set p.pollfds place last);
      store = assign p.store o.channel (record (p.store o.channel) { index = pos place });
    }

    o-listed : channels (descriptor last.fd) ≡ some o.channel
    o-listed = other_entry (length p.pollfds - 1) last o (λ s. not_last (sym s))

    moved_store : moved.store o.channel ≡ record (p.store o.channel) { index = pos place }
    unfolding moved
    moved_store = assign_self p.store o.channel _

    same_store :
        (c i : ℕ) → (p.store c).index ≡ pos i → i ≢ length p.pollfds - 1 → moved.store c ≡ p.store c
    unfolding moved
    same_store c i e h =
        assign_other p.store o.channel _ c
          (λ s. h (ap pos_part (sym e ∙ ap (λ x. (p.store x).index) s ∙ o.index)))

    moved-IsOwned : (i : ℕ) (e : PollFd) → get_elem? moved.pollfds i ≡ some e → IsOwned moved i e
    unfolding moved
    moved-IsOwned i e h =
        let (less, at) = get_elem?-take (length p.pollfds - 1) (set p.pollfds place last) i e h in
        elim (equal_or_not place i) [
          | inl here ↦
              let k : last ≡ e = some-injective last e (
                sym (get_elem?-set_self p.pollfds place last bound)
                ∙ ap (get_elem? (set p.pollfds place last)) here
                ∙ at) in
              subst (IsOwned moved i) k (record {
                channel = o.channel;
                listed = o-listed;
                same_fd = ap (λ x. x.fd) moved_store ∙ o.same_fd;
                index = ap (λ x. x.index) moved_store ∙ ap pos here;
              })
          | inr other ↦
              let w = v.owned i e (sym (get_elem?-set_ne p.pollfds last other) ∙ at) in
              let same = same_store w.channel i w.index (λ s. omega (arith, less, s)) in
              record {
                channel = w.channel;
                listed = other_entry i e w (λ s. other (sym s));
                same_fd = ap (λ x. x.fd) same ∙ w.same_fd;
                index = ap (λ x. x.index) same ∙ w.index;
              }
        ]

    moved-IsPlaced : (k c : ℕ) → moved.channels k ≡ some c → IsPlaced moved k c
    unfolding moved
    moved-IsPlaced k c h =
        let (r, other, l) = other_channel k c h in
        elim (equal_or_not r.place (length p.pollfds - 1)) [
          | inl end ↦
              let s : r.entry ≡ last =
                some-injective r.entry last (sym r.here ∙ ap (get_elem? p.pollfds) end ∙ at_end) in
              let owner : descriptor last.fd ≡ k = ap (λ x. descriptor x.fd) (sym s) ∙ r.owner in
              let same : o.channel ≡ c =
                some-injective o.channel c (sym o.listed ∙ ap p.channels owner ∙ l) in
              subst (IsPlaced moved k) same (record {
                place = place;
                entry = last;
                here =
                    get_elem?-take_old (length p.pollfds - 1) (set p.pollfds place last) place
                      (omega (arith, bound, not_last))
                    ∙ get_elem?-set_self p.pollfds place last bound;
                same_fd = ap (λ x. x.fd) moved_store ∙ o.same_fd ∙ owner;
                index = ap (λ x. x.index) moved_store;
                owner = owner;
              })
          | inr not_end ↦
              let same = same_store c r.place r.index not_end in
              record {
                place = r.place;
                entry = r.entry;
                here =
                    get_elem?-take_old (length p.pollfds - 1) (set p.pollfds place last) r.place
                      (omega (arith, get_elem?-bound p.pollfds r.place r.entry r.here, not_end))
                    ∙ get_elem?-set_ne p.pollfds last (λ e. other (sym e))
                    ∙ r.here;
                same_fd = ap (λ x. x.fd) same ∙ r.same_fd;
                index = ap (λ x. x.index) same ∙ r.index;
                owner = r.owner;
              }
        ]

  move_last-Removed :
      (p' : PollPoller) × (move_last (record p { channels = channels }) place ≡ some p')
      × Removed p fd p'
  unfolding move_last shortened moved channels
  move_last-Removed = elim (equal_or_not place (length p.pollfds - 1)) [
    | inl last ↦ (
      shortened,
      rw (equal place (length p.pollfds - 1) last) refl,
      record { inv = shortened-Inv last; absent = absent; others = others },
    )
    | inr other ↦
        let (last, at_end) =
          get_elem?-some p.pollfds (length p.pollfds - 1) (omega (arith, bound)) in
        (
          moved last at_end other,
          rw (unequal place (length p.pollfds - 1) other, at_end, o-listed last at_end other) refl,
          record {
            inv = record {
              owned = moved-IsOwned last at_end other;
              placed = moved-IsPlaced last at_end other;
            };
            absent = absent;
            others = others;
          },
        )
  ]
    where
      equal : (m n : ℕ) → m ≡ n → (m == n) ≡ true
      equal m n h = ground arith

      unequal : (m n : ℕ) → m ≢ n → (m == n) ≡ false
      unequal m n h = ground arith

      absent : channels fd ≡ none
      absent = assign_self p.channels fd none

      others : (k : ℕ) → k ≢ fd → channels k ≡ p.channels k
      others k h = assign_other p.channels fd none k h

-- The last update of the channel was one without events.
abbrev pub IsIgnored : PollPoller → ℕ → Type 0
IsIgnored p channel =
    (i : ℕ) (e : PollFd)
    → (p.store channel).index ≡ pos i
    → get_elem? p.pollfds i ≡ some e
    → (is_ignored e.fd (p.store channel).fd && e.events == (p.store channel).events) ≡ true

-- When every entry of the vector is that of the channel in the map whose index is its place, and every
-- channel in the map has such an entry, then for a channel in the map that waits for no events, as its
-- entry says, removeChannel does not abort: the same holds afterwards, the channel is not in the map, and
-- the other descriptors are in the map as they were.
pub remove_channel-Removed :
    (p : PollPoller) (channel : ℕ)
    → Inv p
    → p.channels (p.store channel).fd ≡ some channel
    → is_none_event (p.store channel) ≡ true
    → IsIgnored p channel
    → (p' : PollPoller) × (remove_channel p channel ≡ some p') × Removed p (p.store channel).fd p'
unfolding remove_channel remove_at place q channels
remove_channel-Removed p channel v listed idle ignores =
    let r = v.placed (p.store channel).fd channel listed in
    let m = move_last-Removed p (p.store channel).fd channel v listed in
    (
      m.0,
      rw
          (
            listed,
            itself channel,
            idle,
            r.index,
            lt→ltb r.place (length p.pollfds) (get_elem?-bound p.pollfds r.place r.entry r.here),
            r.here,
            ignores r.place r.entry r.index r.here,
          )
          m.1,
      m.2,
    )
