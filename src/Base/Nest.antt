-- ===== src/Base/Nest.antt =====
-- Three nested counting loops, the third counter outermost, and the places that they are through with.
use Prim.Native.Nat.{ℕ, suc, ◌<◌}
use mathlib.Core.Path.{◌≡◌}
use mathlib.Core.Bool.{Bool, true, false, ◌&&◌, ◌||◌}
use native.Mathlib.Omega.{arith}
use voxel.Base.Loops.{for_below, for_below_inv}
use voxel.Base.Tests.{ltb, ◌==◌}

unfoldable pub is_at : ℕ → ℕ → ℕ → ℕ → ℕ → ℕ → Bool
is_at a b c x y z = a == x && (b == y && c == z)

pub is_at_parts : (a b c x y z : ℕ) → is_at a b c x y z ≡ true → (a ≡ x) × (b ≡ y) × (c ≡ z)
unfolding is_at
is_at_parts a b c x y z e = (ground arith, ground arith, ground arith)

unfoldable pub before : ℕ → ℕ → ℕ → ℕ → ℕ → ℕ → Bool
before a b c x y z = ltb z c || (z == c && (ltb y b || (y == b && ltb x a)))

pub before_next :
    (a b c x y z : ℕ) → (is_at a b c x y z || before a b c x y z) ≡ before (suc a) b c x y z
unfolding before is_at
before_next a b c x y z = ground arith

pub before_row : (n b c x y z : ℕ) → x < n → before n b c x y z ≡ before 0 (suc b) c x y z
unfolding before
before_row n b c x y z h = ground arith

pub before_slice : (n c x y z : ℕ) → y < n → before 0 n c x y z ≡ before 0 0 (suc c) x y z
unfolding before
before_slice n c x y z h = ground arith

pub before_all : (n x y z : ℕ) → z < n → before 0 0 n x y z ≡ true
unfolding before
before_all n x y z h = ground arith

pub before_none : (x y z : ℕ) → before 0 0 0 x y z ≡ false
unfolding before
before_none x y z = ground arith

-- The invariant rule: a step of the innermost loop, and the two carries.
pub nest_inv {ℓ κ} :
    {S : Type ℓ} (P : ℕ → ℕ → ℕ → S → Type κ) (body : ℕ → ℕ → ℕ → S → S) (nx ny nz : ℕ)
    → ((a b c : ℕ) (s : S) → a < nx → b < ny → c < nz → P a b c s → P (suc a) b c (body c b a s))
    → ((b c : ℕ) (s : S) → P nx b c s → P 0 (suc b) c s)
    → ((c : ℕ) (s : S) → P 0 ny c s → P 0 0 (suc c) s)
    → (s : S) → P 0 0 0 s
    → P 0 0 nz (for_below nz (λ c. for_below ny (λ b. for_below nx (body c b))) s)
nest_inv P body nx ny nz step carry_row carry_slice = for_below_inv (P 0 0) _ nz (λ c s hc h.
    carry_slice c _ (
      for_below_inv (λ b. P 0 b c) _ ny
        (λ b t hb g.
          carry_row b c _
            (for_below_inv (λ a. P a b c) _ nx (λ a u ha k. step a b c u ha hb hc k) t g))
        s h))
