-- ===== src/TimerQueue/Entries.antt =====
-- net/Timer.h and net/Timer.cc, and the sets of net/TimerQueue.h: std::set<Entry> is a list in its
-- order, and std::set<ActiveTimer>, whose order is never used, a test and a size.
use libanet.Common.{
  ℕ, suc, ◌-◌, Bool, false, not, ◌&&◌, ◌||◌, List, [], ◌∷◌, ◌==◌, ltb, if◌then◌else◌,
}
use libanet.Common.Int.{ℤ, pos, ◌+ℤ◌, ltb_ℤ}

pub record Timer : Type 0 where
  pub expiration : ℤ
  pub delta : ℤ
  pub repeat : Bool
  pub sequence : ℕ

-- Timer::restart
unfoldable pub restart : Timer → ℤ → Timer
unfolding ◌+ℤ◌
restart t now = record t { expiration = if t.repeat then now +ℤ t.delta else pos 0 }

-- std::pair<Timestamp, Timer *>
pub record Entry : Type 0 where
  pub when : ℤ
  pub timer : ℕ

-- operator< of pairs
abbrev pub lt_entry : Entry → Entry → Bool
lt_entry a b = ltb_ℤ a.when b.when || (not (ltb_ℤ b.when a.when) && ltb a.timer b.timer)

abbrev pub eq_entry : Entry → Entry → Bool
eq_entry a b = not (lt_entry a b) && not (lt_entry b a)

-- std::set<Entry>, in its order
unfoldable pub contains : Entry → List Entry → Bool
contains e [] = false
contains e (x ∷ xs) = eq_entry e x || contains e xs

unfoldable pub insert_entry : Entry → List Entry → List Entry
insert_entry e [] = e ∷ []
insert_entry e (x ∷ xs) = if lt_entry e x then e ∷ x ∷ xs else x ∷ insert_entry e xs

unfoldable pub erase_entry : Entry → List Entry → List Entry
erase_entry e [] = []
erase_entry e (x ∷ xs) = if eq_entry e x then xs else x ∷ erase_entry e xs

-- std::set<ActiveTimer>, whose order is never used
pub record ActiveTimerSet : Type 0 where
  pub has : ℕ → ℕ → Bool
  pub size : ℕ

abbrev pub no_timers : ActiveTimerSet
no_timers = record { has = λ p s. false; size = 0 }

abbrev pub is_key : ℕ → ℕ → ℕ → ℕ → Bool
is_key p s p' s' = p' == p && s' == s

unfoldable pub insert_active : ActiveTimerSet → ℕ → ℕ → ActiveTimerSet
insert_active a p s =
    if a.has p s
    then a
    else record { has = λ p' s'. is_key p s p' s' || a.has p' s'; size = suc a.size }

unfoldable pub erase_active : ActiveTimerSet → ℕ → ℕ → ActiveTimerSet
erase_active a p s =
    if a.has p s
    then record { has = λ p' s'. not (is_key p s p' s') && a.has p' s'; size = a.size - 1 }
    else a
