-- ===== src/Base/Bits.antt =====
-- The bit operations at variables. The native `bit_and`, `bit_or` and `bit_xor` stand for a
-- recursion on binary digits with fuel; here the fuel is dropped and the laws that the codecs
-- rest on follow by recursion on the width.
pub mod Xor
use Prim.Native.Nat.{
  ℕ, zero, suc, ◌+◌, ◌-◌, ◌*◌, ◌/◌, ◌%◌, ◌^◌, ◌≤◌, ◌<◌, min, max, bit_and, bit_or, digits, bitwise,
  differ, bit_xor, bit_and-bitwise, bit_or-bitwise, bit_xor-bitwise,
}
use mathlib.Core.Path.{◌≡◌, refl, ap, ap₂, ◌∙◌}
use mathlib.Core.Bool.{Bool, true, ◌&&◌}
use native.Mathlib.Omega.{arith}
use native.Mathlib.Decide.{le_ind}
use native.Mathlib.Nat.{
  pow-suc, one-le-pow, add_comm, div-add-mod', lt_of_lt_of_le, pow-le-pow_right, le-add_right,
}
use voxel.Base.Tests.{ltb, ◌==◌, ==_iff, if◌then◌else◌}

module _ (z : ℕ → ℕ) (f : ℕ → ℕ → ℕ) where
  one_more : (n a b : ℕ) → a ≤ n → digits z f (suc n) a b ≡ digits z f n a b
  one_more zero zero b h = refl
  one_more zero (suc a) b h = absurd (omega arith)
  one_more (suc n) zero b h = refl
  one_more (suc n) (suc a) b h = rw (one_more n (suc a / 2) (b / 2) (omega arith))

  -- Any fuel from the first number on gives the digits of the two numbers.
  settled : (a b m : ℕ) → a ≤ m → digits z f m a b ≡ bitwise z f a b
  settled a b =
      le_ind (λ m. digits z f m a b ≡ bitwise z f a b) refl (λ m h ih. one_more m a b h ∙ ih)

  pub peel :
      (n a b q : ℕ)
      → n ≡ suc a
      → n / 2 ≡ q
      → bitwise z f n b ≡ f (n % 2) (b % 2) + 2 * bitwise z f q (b / 2)
  peel zero a b q e d = absurd (omega arith)
  peel (suc n) a b q e d =
      let half = settled (suc n / 2) (b / 2) n (omega arith) in
      let moved = ap (λ (t : ℕ). bitwise z f t (b / 2)) d in omega (arith, half, moved)

-- The lowest digit of a result and the rest of it.
pub bit_or_step : (x y : ℕ) → bit_or x y ≡ max (x % 2) (y % 2) + 2 * bit_or (x / 2) (y / 2)
bit_or_step zero y = simp bit_or-bitwise (omega arith)
bit_or_step (suc n) y = simp bit_or-bitwise (peel (λ d. d) max (suc n) n y (suc n / 2) refl refl)

pub bit_and_step : (x y : ℕ) → bit_and x y ≡ min (x % 2) (y % 2) + 2 * bit_and (x / 2) (y / 2)
bit_and_step zero y = simp bit_and-bitwise (omega arith)
bit_and_step (suc n) y = simp bit_and-bitwise (peel (λ d. 0) min (suc n) n y (suc n / 2) refl refl)

-- A number below 2 ^ k has at most k digits: recursion on k.
pub self-lt-pow : (a : ℕ) → a < 2 ^ a
self-lt-pow zero = omega arith
self-lt-pow (suc a) = omega (arith, pow-suc 2 a, self-lt-pow a)

below_sum : (x y : ℕ) → x < 2 ^ (x + y)
below_sum x y = lt_of_lt_of_le (self-lt-pow x) (pow-le-pow_right (omega arith) (le-add_right x y))

bit_or-zero_width : (k a : ℕ) → a < 2 ^ k → bit_or a 0 ≡ a
bit_or-zero_width zero zero h = refl
bit_or-zero_width zero (suc a) h = absurd (omega arith)
bit_or-zero_width (suc k) a h =
    omega (
      arith,
      bit_or_step a 0,
      pow-suc 2 k,
      bit_or-zero_width k (a / 2) (omega (arith, pow-suc 2 k)),
    )

pub bit_or-zero : (a : ℕ) → bit_or a 0 ≡ a
bit_or-zero a = bit_or-zero_width a a (self-lt-pow a)

pub zero-bit_or : (b : ℕ) → bit_or 0 b ≡ b
zero-bit_or b = bit_or-bitwise 0 b

double : (q k : ℕ) → q * 2 ^ suc k ≡ 2 * (q * 2 ^ k)
double q k = omega (arith, ap (λ (t : ℕ). q * t) (pow-suc 2 k))

-- `r | (q << k)` is a sum when `r` fits `k` bits.
pub bit_or_disjoint : (k r q : ℕ) → r < 2 ^ k → bit_or r (q * 2 ^ k) ≡ r + q * 2 ^ k
bit_or_disjoint zero zero q h = zero-bit_or (q * 1) ∙ omega arith
bit_or_disjoint zero (suc r) q h = absurd (omega arith)
bit_or_disjoint (suc k) r q h =
    let halved : q * 2 ^ suc k / 2 ≡ q * 2 ^ k = omega (arith, double q k) in
    bit_or_step r (q * 2 ^ suc k)
    ∙ rw (halved, bit_or_disjoint k (r / 2) q (omega (arith, pow-suc 2 k)))
        (omega (arith, double q k))

bit_and-zero : (k a : ℕ) → a < 2 ^ k → bit_and a 0 ≡ 0
bit_and-zero zero zero h = refl
bit_and-zero zero (suc a) h = absurd (omega arith)
bit_and-zero (suc k) a h =
    omega (arith, bit_and_step a 0, bit_and-zero k (a / 2) (omega (arith, pow-suc 2 k)))

mask_fields : (k q r : ℕ) → r < 2 ^ k → bit_and (q * 2 ^ k + r) (2 ^ k - 1) ≡ r
mask_fields zero q r h =
    rw (bit_and-zero (q * 1 + r) (q * 1 + r) (self-lt-pow (q * 1 + r))) (omega arith)
mask_fields (suc k) q r h =
    let halved : (q * 2 ^ suc k + r) / 2 ≡ q * 2 ^ k + r / 2 = omega (arith, double q k) in
    let mask : (2 ^ suc k - 1) / 2 ≡ 2 ^ k - 1 = omega (arith, pow-suc 2 k) in
    bit_and_step (q * 2 ^ suc k + r) (2 ^ suc k - 1)
    ∙ rw (halved, mask, mask_fields k q (r / 2) (omega (arith, pow-suc 2 k)))
        (ground (arith, double q k, pow-suc 2 k, one-le-pow k 2))

-- A mask of `k` low ones is the remainder by `2 ^ k`.
pub bit_and_mask : (k a : ℕ) → bit_and a (2 ^ k - 1) ≡ a % 2 ^ k
bit_and_mask k a =
    ground (arith, one-le-pow k 2, div-add-mod' a (2 ^ k), mask_fields k (a / 2 ^ k) (a % 2 ^ k))

max_comm : (a b : ℕ) → max a b ≡ max b a
max_comm a b = omega arith

bit_or_comm_width : (k a b : ℕ) → a < 2 ^ k → b < 2 ^ k → bit_or a b ≡ bit_or b a
bit_or_comm_width zero zero zero h g = refl
bit_or_comm_width zero zero (suc b) h g = absurd (omega arith)
bit_or_comm_width zero (suc a) b h g = absurd (omega arith)
bit_or_comm_width (suc k) a b h g =
    let fits = pow-suc 2 k in
    let rest = bit_or_comm_width k (a / 2) (b / 2) (omega (arith, fits)) (omega (arith, fits)) in
    omega (arith, bit_or_step a b, bit_or_step b a, rest, max_comm (a % 2) (b % 2))

pub bit_or_comm : (a b : ℕ) → bit_or a b ≡ bit_or b a
bit_or_comm a b = bit_or_comm_width (a + b) a b (below_sum a b) (rw add_comm (below_sum b a))

-- `(q << k) | r` where `r` fits `k` bits.
pub bit_or_high : (k q r : ℕ) → r < 2 ^ k → bit_or (q * 2 ^ k) r ≡ q * 2 ^ k + r
bit_or_high k q r h = bit_or_comm (q * 2 ^ k) r ∙ bit_or_disjoint k r q h ∙ add_comm r (q * 2 ^ k)

pub bit_or-half : (a b : ℕ) → bit_or a b / 2 ≡ bit_or (a / 2) (b / 2)
bit_or-half a b = omega (arith, bit_or_step a b)

pub bit_or-lt : (k a b : ℕ) → a < 2 ^ k → b < 2 ^ k → bit_or a b < 2 ^ k
bit_or-lt zero zero zero h g = omega arith
bit_or-lt zero zero (suc b) h g = absurd (omega arith)
bit_or-lt zero (suc a) b h g = absurd (omega arith)
bit_or-lt (suc k) a b h g = omega (
  arith,
  bit_or_step a b,
  pow-suc 2 k,
  bit_or-lt k (a / 2) (b / 2) (omega (arith, pow-suc 2 k)) (omega (arith, pow-suc 2 k)),
)

zero-bit_and : (b : ℕ) → bit_and 0 b ≡ 0
zero-bit_and b = bit_and-bitwise 0 b

-- A mask takes an `or` apart.
bit_and-bit_or_width :
    (k a b m : ℕ)
    → a < 2 ^ k
    → b < 2 ^ k
    → bit_and (bit_or a b) m ≡ bit_or (bit_and a m) (bit_and b m)
bit_and-bit_or_width zero zero zero m h g = rw (zero-bit_and m)
bit_and-bit_or_width zero zero (suc b) m h g = absurd (omega arith)
bit_and-bit_or_width zero (suc a) b m h g = absurd (omega arith)
bit_and-bit_or_width (suc k) a b m h g = omega (
  arith,
  bit_and_step (bit_or a b) m,
  bit_or_step (bit_and a m) (bit_and b m),
  bit_and_step a m,
  bit_and_step b m,
  bit_or_step a b,
  ap (λ (t : ℕ). bit_and t (m / 2)) (bit_or-half a b),
  ap₂ bit_or (and-half a) (and-half b),
  bit_and-bit_or_width k (a / 2) (b / 2) (m / 2) (omega (arith, pow-suc 2 k))
      (omega (arith, pow-suc 2 k)),
)
  where
    and-half : (x : ℕ) → bit_and x m / 2 ≡ bit_and (x / 2) (m / 2)
    and-half x = omega (arith, bit_and_step x m)

pub bit_and-bit_or : (a b m : ℕ) → bit_and (bit_or a b) m ≡ bit_or (bit_and a m) (bit_and b m)
bit_and-bit_or a b m =
    bit_and-bit_or_width (a + b) a b m (below_sum a b) (rw add_comm (below_sum b a))

bit_or-eq-add_width : (k a b : ℕ) → a < 2 ^ k → bit_and a b ≡ 0 → bit_or a b ≡ a + b
bit_or-eq-add_width zero zero b h e = omega (arith, zero-bit_or b)
bit_or-eq-add_width zero (suc a) b h e = absurd (omega arith)
bit_or-eq-add_width (suc k) a b h e = omega (
  arith,
  bit_or_step a b,
  bit_and_step a b,
  bit_or-eq-add_width k (a / 2) (b / 2) (omega (arith, pow-suc 2 k))
      (omega (arith, bit_and_step a b)),
)

-- The `or` of two numbers that share no digit is their sum.
pub bit_or-eq-add : (a b : ℕ) → bit_and a b ≡ 0 → bit_or a b ≡ a + b
bit_or-eq-add a b e = bit_or-eq-add_width a a b (self-lt-pow a) e

-- Over a small range, check every value by evaluation.
unfoldable pub holds_below : (ℕ → Bool) → ℕ → Bool
holds_below p zero = true
holds_below p (suc n) = p n && holds_below p n

pub holds_below_at : (p : ℕ → Bool) (n x : ℕ) → holds_below p n ≡ true → x < n → p x ≡ true
unfolding holds_below
holds_below_at p zero x t h = absurd (omega arith)
holds_below_at p (suc n) x t h = ground (arith, holds_below_at p n x)

pub table_eq :
    (n : ℕ) (f g : ℕ → ℕ) → holds_below (λ x. f x == g x) n ≡ true → (x : ℕ) → x < n → f x ≡ g x
table_eq n f g t x h = (==_iff (f x) (g x)).0 (holds_below_at (λ i. f i == g i) n x t h)

-- A table over pairs, the first number below `n` and the second below `m`.
pub table_eq₂ :
    (n m : ℕ) (f g : ℕ → ℕ → ℕ)
    → holds_below (λ x. holds_below (λ y. f x y == g x y) m) n ≡ true
    → (x y : ℕ) → x < n
    → y < m
    → f x y ≡ g x y
table_eq₂ n m f g t x y hx hy =
    let row = holds_below_at (λ i. holds_below (λ j. f i j == g i j) m) n x t hx in
    table_eq m (f x) (g x) row y hy
