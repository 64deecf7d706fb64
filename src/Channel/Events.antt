-- ===== src/Channel/Events.antt =====
-- net/Channel.h: what the event mask of a channel says of reading and writing.
use libanet.Common.{◌⊎◌, inl, inr, ℕ, ◌≡◌, refl, Bool, true, false, not, ◌&&◌, ◌==◌}
use libanet.Channel.{
  Channel, has, is_reading, is_writing, read_event, write_event, enable_reading, disable_reading,
  enable_writing, disable_writing, disable_all,
}

-- The masks that the code makes are the four unions of the read and the write mask.
abbrev pub IsMask : ℕ → Type 0
IsMask e = (e ≡ 0) ⊎ ((e ≡ 3) ⊎ ((e ≡ 4) ⊎ (e ≡ 7)))

-- A mask that says `r` of reading and `w` of writing.
pub record Says (e : ℕ) (r w : Bool) : Type 0 where
  pub mask : IsMask e
  pub reads : has e read_event ≡ r
  pub writes : has e write_event ≡ w
  pub nothing : (e == 0) ≡ (not r && not w)

-- To show something of each mask.
mask_cases : (P : ℕ → Type 0) → P 0 → P 3 → P 4 → P 7 → (e : ℕ) → IsMask e → P e
mask_cases P a b c d e (inl h) = rw h a
mask_cases P a b c d e (inr (inl h)) = rw h b
mask_cases P a b c d e (inr (inr (inl h))) = rw h c
mask_cases P a b c d e (inr (inr (inr h))) = rw h d

abbrev is_mask_0 : IsMask 0
is_mask_0 = inl refl

abbrev is_mask_3 : IsMask 3
is_mask_3 = inr (inl refl)

abbrev is_mask_4 : IsMask 4
is_mask_4 = inr (inr (inl refl))

abbrev is_mask_7 : IsMask 7
is_mask_7 = inr (inr (inr refl))

pub Says-mask : (e : ℕ) → IsMask e → Says e (has e read_event) (has e write_event)
unfolding has
Says-mask =
    mask_cases (λ e. Says e (has e read_event) (has e write_event))
      (record { mask = is_mask_0; reads = refl; writes = refl; nothing = refl })
      (record { mask = is_mask_3; reads = refl; writes = refl; nothing = refl })
      (record { mask = is_mask_4; reads = refl; writes = refl; nothing = refl })
      (record { mask = is_mask_7; reads = refl; writes = refl; nothing = refl })

-- What each operation makes of the mask: it sets or clears its own flag and keeps the other.
pub record Switches (c : Channel) : Type 0 where
  pub read_on : Says (enable_reading c).events true (is_writing c)
  pub read_off : Says (disable_reading c).events false (is_writing c)
  pub write_on : Says (enable_writing c).events (is_reading c) true
  pub write_off : Says (disable_writing c).events (is_reading c) false
  pub all_off : Says (disable_all c).events false false

Says-0 : Says 0 false false
unfolding has
Says-0 = record { mask = is_mask_0; reads = refl; writes = refl; nothing = refl }

Says-3 : Says 3 true false
unfolding has
Says-3 = record { mask = is_mask_3; reads = refl; writes = refl; nothing = refl }

Says-4 : Says 4 false true
unfolding has
Says-4 = record { mask = is_mask_4; reads = refl; writes = refl; nothing = refl }

Says-7 : Says 7 true true
unfolding has
Says-7 = record { mask = is_mask_7; reads = refl; writes = refl; nothing = refl }

-- On a mask that the code makes, each operation sets or clears its own flag and keeps the other.
pub events-Switches : (c : Channel) → IsMask c.events → Switches c
unfolding has enable_reading disable_reading enable_writing disable_writing disable_all
events-Switches c m =
    mask_cases (λ e. Switches (record c { events = e }))
      (record {
        read_on = Says-3;
        read_off = Says-0;
        write_on = Says-4;
        write_off = Says-0;
        all_off = Says-0;
      })
      (record {
        read_on = Says-3;
        read_off = Says-0;
        write_on = Says-7;
        write_off = Says-3;
        all_off = Says-0;
      })
      (record {
        read_on = Says-7;
        read_off = Says-4;
        write_on = Says-4;
        write_off = Says-0;
        all_off = Says-0;
      })
      (record {
        read_on = Says-7;
        read_off = Says-4;
        write_on = Says-7;
        write_off = Says-3;
        all_off = Says-0;
      })
      c.events m
