-- ===== src/LogStream/Lines.antt =====
-- Items written to the stream of base/LogStream.h, and what they leave in its buffer.
use libanet.Common.{
  ℕ, ◌+◌, ◌-◌, ◌^◌, ◌≤◌, ◌<◌, ◌≡◌, refl, sym, ap, ap₂, subst, ◌∙◌, ◌⊎◌, inl, inr, Bool, true, false,
  Option, none, some, List, [], ◌∷◌, ◌++◌, length, length-append, ltb, leb, if◌then◌else◌, arith,
  Bool-cases,
}
use mathlib.Core.List.{append-nil, append_assoc}
use libanet.Common.Int.{ℤ, pos, pos_part, pos-sub}
use libanet.Common.Options.{◌>>=◌}
use libanet.LogStream.{
  FixedBuffer, Item, integer, pointer, boolean, c_string, bytes, append, add, avail,
  has_numeric_room, is_negative, convert, convert_hex, format_integer, format_pointer, format_bool,
  format_c_string, write, write_all,
}
use libanet.LogStream.Numbers.{magnitude, convert-IsText, convert_hex-IsText}

-- What an item reads, as a specification.
abbrev pub item_text : Item → Option (List ℕ)
item_text (integer v) = convert v
item_text (pointer v) = convert_hex v >>= λ t. some (b'0' ∷ b'x' ∷ t)
item_text (boolean true) = some (b'1' ∷ [])
item_text (boolean false) = some (b'0' ∷ [])
item_text (c_string (some s)) = some s
item_text (c_string none) = some (b'(' ∷ b'n' ∷ b'u' ∷ b'l' ∷ b'l' ∷ b')' ∷ [])
item_text (bytes s) = some s

-- Numbers are of 64 bits.
pub data IsInRange : Item → Type 0 where
  integer_in : {v : ℤ} → magnitude v < 2 ^ 64 → IsInRange (integer v)
  pointer_in : {v : ℕ} → v < 2 ^ 64 → IsInRange (pointer v)
  boolean_in : {v : Bool} → IsInRange (boolean v)
  c_string_in : {v : Option (List ℕ)} → IsInRange (c_string v)
  bytes_in : {v : List ℕ} → IsInRange (bytes v)

-- The buffer has not been overrun, and a byte of it is free.
abbrev pub IsWithin : FixedBuffer → Type 0
IsWithin b = length b.text < b.size

-- Whether there is room for an item of `n` bytes when so many are free: a number or a pointer needs
-- 48, whatever its text, and another item one more than it has.
abbrev pub finds_room : Item → ℕ → ℕ → Bool
finds_room (integer v) n free = leb 48 free
finds_room (pointer v) n free = leb 48 free
finds_room (boolean v) n free = ltb n free
finds_room (c_string s) n free = ltb n free
finds_room (bytes s) n free = ltb n free

abbrev pub room : FixedBuffer → ℕ
room b = b.size - length b.text

-- The item is written whole if it finds room, and else not at all.
pub record Wrote (b : FixedBuffer) (x : Item) (b' : FixedBuffer) : Type 0 where
  pub same_size : b'.size ≡ b.size
  pub within : IsWithin b'
  pub text : List ℕ
  pub reads : item_text x ≡ some text
  pub whole :
      ((finds_room x (length text) (room b) ≡ false) × (b'.text ≡ b.text))
      ⊎ ((finds_room x (length text) (room b) ≡ true) × (b'.text ≡ b.text ++ text))

pub avail-room : (b : FixedBuffer) → IsWithin b → avail b ≡ pos (b.size - length b.text)
avail-room b h = pos-sub b.size (length b.text) (omega arith)

pub append_if :
    (b : FixedBuffer) (t : List ℕ)
    → IsWithin b
    → append b t
      ≡ (if ltb (length t) (b.size - length b.text) then record b { text = b.text ++ t } else b)
unfolding append
append_if b t h = rw (avail-room b h) refl

module _ (b : FixedBuffer) (h : IsWithin b) (x : Item) (t : List ℕ)
    (reads : item_text x ≡ some t) where
  added-Wrote :
      length b.text + length t < b.size
      → finds_room x (length t) (room b) ≡ true
      → Wrote b x (record b { text = b.text ++ t })
  added-Wrote free fits = record {
    same_size = refl;
    within = omega (arith, length-append b.text t);
    text = t;
    reads = reads;
    whole = inr (fits, refl);
  }

  no_room-Wrote : finds_room x (length t) (room b) ≡ false → Wrote b x b
  no_room-Wrote full = record {
    same_size = refl;
    within = h;
    text = t;
    reads = reads;
    whole = inl (full, refl);
  }

  append-Wrote : finds_room x (length t) (room b) ≡ ltb (length t) (room b) → Wrote b x (append b t)
  append-Wrote as_text = elim (Bool-cases (ltb (length t) (b.size - length b.text))) [
    | inl fits ↦
        subst (Wrote b x) (sym (append_if b t h ∙ rw fits refl))
          (added-Wrote (ground arith) (as_text ∙ fits))
    | inr full ↦
        subst (Wrote b x) (sym (append_if b t h ∙ rw full refl)) (no_room-Wrote (as_text ∙ full))
  ]

  add-Wrote :
      length t ≤ 21
      → leb 48 (room b) ≡ true
      → finds_room x (length t) (room b) ≡ leb 48 (room b)
      → Wrote b x (add b t)
  unfolding add
  add-Wrote short wide as_number = added-Wrote (ground arith) (as_number ∙ wide)

numeric_room : (b : FixedBuffer) → IsWithin b → has_numeric_room b ≡ leb 48 (room b)
numeric_room b h = ap (λ a. leb 48 (pos_part a)) (avail-room b h)

Writes : FixedBuffer → Item → Type 0
Writes b x = (b' : FixedBuffer) × (write b x ≡ some b') × Wrote b x b'

integer-Writes :
    (b : FixedBuffer) (v : ℤ) → IsWithin b → magnitude v < 2 ^ 64 → Writes b (integer v)
unfolding write format_integer Writes
integer-Writes b v h small =
    let c = convert-IsText v (omega arith) in
    let t = if is_negative v then b'_' ∷ c.0 else c.0 in
    elim (Bool-cases (leb 48 (room b))) [
      | inl wide ↦ (
        add b t,
        rw (numeric_room b h, wide, c.1) refl,
        add-Wrote b h (integer v) t c.1 (sign_length (is_negative v) c.0 c.2.short) wide refl,
      )
      | inr narrow ↦
          (b, rw (numeric_room b h, narrow) refl, no_room-Wrote b h (integer v) t c.1 narrow)
    ]
  where
    sign_length :
        (s : Bool) (ds : List ℕ) → length ds ≤ 20 → length (if s then b'_' ∷ ds else ds) ≤ 21
    sign_length s ds k = ground arith

pointer-Writes : (b : FixedBuffer) (v : ℕ) → IsWithin b → v < 2 ^ 64 → Writes b (pointer v)
unfolding write format_pointer Writes
pointer-Writes b v h small =
    let c = convert_hex-IsText v (omega arith) in
    let t = b'0' ∷ b'x' ∷ c.0 in
    let short = c.2.short in
    let reads : item_text (pointer v) ≡ some t = rw c.1 refl in
    elim (Bool-cases (leb 48 (room b))) [
      | inl wide ↦ (
        add b t,
        rw (numeric_room b h, wide, c.1) refl,
        add-Wrote b h (pointer v) t reads (omega arith) wide refl,
      )
      | inr narrow ↦
          (b, rw (numeric_room b h, narrow) refl, no_room-Wrote b h (pointer v) t reads narrow)
    ]

-- Within the buffer, an item of at most 64 bits is written whole if it finds room and else not at
-- all, and the buffer is not overrun.
pub write-Wrote :
    (b : FixedBuffer) (x : Item)
    → IsWithin b
    → IsInRange x
    → (b' : FixedBuffer) × (write b x ≡ some b') × Wrote b x b'
unfolding write format_bool format_c_string Writes
write-Wrote b _ h (integer_in {v = v} small) = integer-Writes b v h small
write-Wrote b _ h (pointer_in {v = v} small) = pointer-Writes b v h small
write-Wrote b _ h (boolean_in {v = true}) = (_, refl, append-Wrote b h (boolean true) _ refl refl)
write-Wrote b _ h (boolean_in {v = false}) = (_, refl, append-Wrote b h (boolean false) _ refl refl)
write-Wrote b _ h (c_string_in {v = some s}) =
    (_, refl, append-Wrote b h (c_string (some s)) _ refl refl)
write-Wrote b _ h (c_string_in {v = none}) = (_, refl, append-Wrote b h (c_string none) _ refl refl)
write-Wrote b _ h (bytes_in {v = s}) = (_, refl, append-Wrote b h (bytes s) _ refl refl)

pub data AreInRange : List Item → Type 0 where
  no_item : AreInRange []
  item : {x : Item} {xs : List Item} → IsInRange x → AreInRange xs → AreInRange (x ∷ xs)

-- What the items leave behind the text when so many bytes are free: each item's text in order, if
-- the item finds room in what those before it leave.
pub data Kept : ℕ → List Item → List ℕ → Type 0 where
  kept_all : {free : ℕ} → Kept free [] []
  keep :
      {free : ℕ} {x : Item} {xs : List Item} {t r : List ℕ}
      → item_text x ≡ some t
      → finds_room x (length t) free ≡ true
      → Kept (free - length t) xs r
      → Kept free (x ∷ xs) (t ++ r)
  skip :
      {free : ℕ} {x : Item} {xs : List Item} {t r : List ℕ}
      → item_text x ≡ some t
      → finds_room x (length t) free ≡ false
      → Kept free xs r
      → Kept free (x ∷ xs) r

room_after :
    (b b' : FixedBuffer) (t : List ℕ)
    → b'.size ≡ b.size
    → b'.text ≡ b.text ++ t
    → room b' ≡ room b - length t
room_after b b' t size grown =
    ap₂ (λ n s. n - length s) size grown
    ∙ ap (λ n. b.size - n) (length-append b.text t)
    ∙ omega arith

-- When a byte of the buffer is free and the numbers are of at most 64 bits, every sequence of items
-- goes through and leaves a byte free. Behind the text stand the texts, whole and in order, of just
-- those items that found room when their turn came: for an integer or a pointer 48 free bytes, for
-- any other item one more than its text has.
pub write_all-Kept :
    (b : FixedBuffer) (xs : List Item)
    → IsWithin b
    → AreInRange xs
    → (b' : FixedBuffer) × (r : List ℕ) × (write_all b xs ≡ some b')
      × IsWithin b'
      × (b'.size ≡ b.size)
      × (b'.text ≡ b.text ++ r)
      × Kept (room b) xs r
unfolding write_all
write_all-Kept b [] h no_item = (b, [], refl, h, refl, sym (append-nil b.text), kept_all)
write_all-Kept b (x ∷ xs) h (item p ps) =
    let w = write-Wrote b x h p in
    let rest = write_all-Kept w.0 xs w.2.within ps in
    let t = w.2.text in
    let result : write_all b (x ∷ xs) ≡ some rest.0 = rw w.1 rest.2 in
    let size = rest.4 ∙ w.2.same_size in
    elim w.2.whole [
      | inl (full, skipped) ↦ (
        rest.0,
        rest.1,
        result,
        rest.3,
        size,
        rest.5 ∙ ap (λ s. s ++ rest.1) skipped,
        skip w.2.reads full (
            subst (λ n. Kept n xs rest.1) (ap₂ (λ n s. n - length s) w.2.same_size skipped) rest.6),
      )
      | inr (fits, grown) ↦ (
        rest.0,
        t ++ rest.1,
        result,
        rest.3,
        size,
        rest.5 ∙ ap (λ s. s ++ rest.1) grown ∙ append_assoc b.text t rest.1,
        keep w.2.reads fits
            (subst (λ n. Kept n xs rest.1) (room_after b w.0 t w.2.same_size grown) rest.6),
      )
    ]
