-- ===== src/Common/Options.antt =====
-- Code that may abort: `none` is a failed assert or an exception that nothing catches.
use libanet.Common.{Bool, true, false, Option, none, some}

infixl 5 ◌>>=◌ ◌>>◌
abbrev pub ◌>>=◌ {ℓ κ} : {A : Type ℓ} {B : Type κ} → Option A → (A → Option B) → Option B
none >>= f = none
some a >>= f = f a

abbrev pub ◌>>◌ {ℓ} : {B : Type ℓ} → Option (Unit {0}) → Option B → Option B
m >> k = m >>= λ _. k

-- assert(b)
abbrev pub check : Bool → Option (Unit {0})
check true = some tt
check false = none
