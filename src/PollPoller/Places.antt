-- ===== src/PollPoller/Places.antt =====
-- The entries of net/PollPoller.cc's vector and the channels of its map.
use libanet.Common.{
  ℕ, zero, suc, ◌<◌, ◌≡◌, ◌≢◌, ◌⊎◌, inl, inr, refl, sym, true, false, some, List, [], ◌∷◌, ◌++◌,
  length, get_elem?, take, ◌==◌, arith, Bool-cases,
}
use mathlib.Core.Option.{some-injective, none-ne-some}
use libanet.Common.Int.{pos}
use libanet.PollPoller.{PollFd, PollPoller, assign, descriptor}

module _ {A : Type 0} where
  pub get_elem?-bound : (xs : List A) (i : ℕ) (e : A) → get_elem? xs i ≡ some e → i < length xs
  get_elem?-bound [] i e h = absurd (none-ne-some e h)
  get_elem?-bound (x ∷ xs) zero e h = omega arith
  get_elem?-bound (x ∷ xs) (suc i) e h = omega (arith, get_elem?-bound xs i e h)

  pub get_elem?-some : (xs : List A) (i : ℕ) → i < length xs → (e : A) × (get_elem? xs i ≡ some e)
  get_elem?-some [] i h = absurd (omega (arith, h))
  get_elem?-some (x ∷ xs) zero h = (x, refl)
  get_elem?-some (x ∷ xs) (suc i) h = get_elem?-some xs i (omega (arith, h))

  pub get_elem?-append :
      (xs : List A) (x : A) (i : ℕ) (e : A)
      → get_elem? (xs ++ (x ∷ [])) i ≡ some e
      → (get_elem? xs i ≡ some e) ⊎ ((i ≡ length xs) × (e ≡ x))
  get_elem?-append [] x zero e h = inr (refl, sym (some-injective x e h))
  get_elem?-append [] x (suc i) e h = absurd (none-ne-some e h)
  get_elem?-append (y ∷ xs) x zero e h = inl h
  get_elem?-append (y ∷ xs) x (suc i) e h = elim (get_elem?-append xs x i e h) [
    | inl k ↦ inl k
    | inr k ↦ inr (omega (arith, k.0), k.1)
  ]

  pub get_elem?-append_old :
      (xs ys : List A) (i : ℕ) (e : A) → get_elem? xs i ≡ some e → get_elem? (xs ++ ys) i ≡ some e
  get_elem?-append_old [] ys i e h = absurd (none-ne-some e h)
  get_elem?-append_old (x ∷ xs) ys zero e h = h
  get_elem?-append_old (x ∷ xs) ys (suc i) e h = get_elem?-append_old xs ys i e h

  pub get_elem?-append_last :
      (xs : List A) (x : A) → get_elem? (xs ++ (x ∷ [])) (length xs) ≡ some x
  get_elem?-append_last [] x = refl
  get_elem?-append_last (y ∷ xs) x = get_elem?-append_last xs x

  pub get_elem?-take :
      (n : ℕ) (xs : List A) (i : ℕ) (e : A)
      → get_elem? (take n xs) i ≡ some e
      → (i < n) × (get_elem? xs i ≡ some e)
  get_elem?-take zero xs i e h = absurd (none-ne-some e h)
  get_elem?-take (suc n) [] i e h = absurd (none-ne-some e h)
  get_elem?-take (suc n) (x ∷ xs) zero e h = (omega arith, h)
  get_elem?-take (suc n) (x ∷ xs) (suc i) e h =
      let k = get_elem?-take n xs i e h in (omega (arith, k.0), k.1)

  pub get_elem?-take_old :
      (n : ℕ) (xs : List A) (i : ℕ) → i < n → get_elem? (take n xs) i ≡ get_elem? xs i
  get_elem?-take_old zero xs i h = absurd (omega (arith, h))
  get_elem?-take_old (suc n) [] i h = refl
  get_elem?-take_old (suc n) (x ∷ xs) zero h = refl
  get_elem?-take_old (suc n) (x ∷ xs) (suc i) h = get_elem?-take_old n xs i (omega (arith, h))

pub equal_or_not : (m n : ℕ) → (m ≡ n) ⊎ (m ≢ n)
equal_or_not m n = elim (Bool-cases (m == n)) [
  | inl e ↦ inl (ground arith)
  | inr e ↦ inr (λ h. ground arith)
]

-- What a write into the map of channels, or into the store, leaves.
pub assign_self : {A : Type 0} (m : ℕ → A) (key : ℕ) (v : A) → assign m key v key ≡ v
assign_self m key v = rw (itself key) refl
  where
    itself : (n : ℕ) → (n == n) ≡ true
    itself n = ground arith

pub assign_other :
    {A : Type 0} (m : ℕ → A) (key : ℕ) (v : A) (k : ℕ) → k ≢ key → assign m key v k ≡ m k
assign_other m key v k h = rw (another k key h) refl
  where
    another : (a b : ℕ) → a ≢ b → (a == b) ≡ false
    another a b n = ground arith

-- The entry at a place is that of a channel in the map, which keeps the place as its index.
pub record IsOwned (p : PollPoller) (i : ℕ) (e : PollFd) : Type 0 where
  pub channel : ℕ
  pub listed : p.channels (descriptor e.fd) ≡ some channel
  pub same_fd : (p.store channel).fd ≡ descriptor e.fd
  pub index : (p.store channel).index ≡ pos i

-- A channel in the map has an entry, at the place that is its index.
pub record IsPlaced (p : PollPoller) (fd channel : ℕ) : Type 0 where
  pub place : ℕ
  pub entry : PollFd
  pub here : get_elem? p.pollfds place ≡ some entry
  pub same_fd : (p.store channel).fd ≡ fd
  pub index : (p.store channel).index ≡ pos place
  pub owner : descriptor entry.fd ≡ fd

pub record Inv (p : PollPoller) : Type 0 where
  pub owned : (i : ℕ) (e : PollFd) → get_elem? p.pollfds i ≡ some e → IsOwned p i e
  pub placed : (fd channel : ℕ) → p.channels fd ≡ some channel → IsPlaced p fd channel
