-- ===== src/Common/Words.antt =====
-- size_t arithmetic, which wraps at 2 ^ 64.
use libanet.Common.{ℕ, ◌+◌, ◌-◌, ◌%◌, ◌^◌, ◌≤◌, ◌<◌, ◌≡◌, arith, leb, if◌then◌else◌}

abbrev pub size_mod : ℕ
size_mod = 2 ^ 64

-- std::vector<char>::max_size()
abbrev pub max_size : ℕ
max_size = 2 ^ 63 - 1

unfoldable pub add_size : ℕ → ℕ → ℕ
add_size a b = (a + b) % size_mod

unfoldable pub sub_size : ℕ → ℕ → ℕ
sub_size a b = if leb b a then a - b else a + size_mod - b

pub add_size-eq : (a b : ℕ) → a + b < size_mod → add_size a b ≡ a + b
unfolding add_size
add_size-eq a b h = omega arith

pub sub_size-eq : (a b : ℕ) → b ≤ a → sub_size a b ≡ a - b
unfolding sub_size
sub_size-eq a b h = ground arith
