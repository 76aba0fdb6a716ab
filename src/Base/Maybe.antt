-- ===== src/Base/Maybe.antt =====
-- The `return std::nullopt` chains of the source, as a `do` block over options.
use mathlib.Core.Path.{◌≡◌, refl}
use mathlib.Core.Bool.{Bool, true, false}
use mathlib.Core.Option.{Option, none, some}

infixl 5 ◌>>=◌ ◌>>◌
abbrev pub ◌>>=◌ {ℓ κ} : {A : Type ℓ} {B : Type κ} → Option A → (A → Option B) → Option B
none >>= f = none
some a >>= f = f a

abbrev pub ◌>>◌ {ℓ} : {B : Type ℓ} → Option (Unit {0}) → Option B → Option B
m >> k = m >>= λ _. k

-- `if (bad) return std::nullopt;`
abbrev pub reject : Bool → Option (Unit {0})
reject true = none
reject false = some tt

-- Inversion of a successful chain.
pub >>=-eq-some {ℓ κ} :
    {A : Type ℓ} {B : Type κ} (m : Option A) (f : A → Option B) {b : B}
    → (m >>= f) ≡ some b
    → (a : A) × (m ≡ some a) × (f a ≡ some b)
>>=-eq-some none f h = cc
>>=-eq-some (some a) f h = (a, refl, h)

pub reject->> {ℓ} :
    {B : Type ℓ} (c : Bool) (k : Option B) {b : B}
    → (reject c >> k) ≡ some b
    → (c ≡ false) × (k ≡ some b)
reject->> true k h = cc
reject->> false k h = (refl, h)

pub some_inj {ℓ} : {A : Type ℓ} (a b : A) → some a ≡ some b → a ≡ b
some_inj a b h = cc
