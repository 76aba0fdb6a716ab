-- ===== src/Base/Bits/Xor.antt =====
-- The exclusive or at variables, digit by digit.
use Prim.Native.Nat.{
  ℕ, zero, suc, ◌+◌, ◌-◌, ◌*◌, ◌/◌, ◌%◌, ◌^◌, ◌<◌, differ, bit_xor, bit_xor-bitwise,
}
use mathlib.Core.Path.{◌≡◌, refl, ◌∙◌}
use native.Mathlib.Omega.{arith}
use native.Mathlib.Nat.{pow-suc}
use voxel.Base.Bits.{peel}
use voxel.Base.Tests.{ltb, if◌then◌else◌}

bit_xor_step : (a b : ℕ) → bit_xor a b ≡ bit_xor (a / 2) (b / 2) * 2 + differ (a % 2) (b % 2)
bit_xor_step zero b = simp bit_xor-bitwise (omega arith)
bit_xor_step (suc a) b =
    simp bit_xor-bitwise (omega (arith, peel (λ y. y) differ (suc a) a b (suc a / 2) refl refl))

differ-zero : (x : ℕ) → differ x 0 ≡ x
differ-zero zero = refl
differ-zero (suc x) = refl

-- To flip the top bit of a word is to add half of the range, wrapping around.
pub bit_xor_top :
    (k v : ℕ) → v < 2 ^ suc k → bit_xor v (2 ^ k) ≡ (if ltb v (2 ^ k) then v + 2 ^ k else v - 2 ^ k)
bit_xor_top zero zero h = refl
bit_xor_top zero (suc zero) h = refl
bit_xor_top zero (suc (suc v)) h = absurd (omega arith)
bit_xor_top (suc k) v h =
    let halved : 2 ^ suc k / 2 ≡ 2 ^ k = omega (arith, pow-suc 2 k) in
    let even : 2 ^ suc k % 2 ≡ 0 = omega (arith, pow-suc 2 k) in
    bit_xor_step v (2 ^ suc k)
    ∙ rw
        (
          halved,
          even,
          differ-zero (v % 2),
          bit_xor_top k (v / 2) (omega (arith, pow-suc 2 (suc k))),
        )
        (ground (arith, pow-suc 2 k))

differ_bits : (p q : ℕ) → p < 2 → q < 2 → differ p q ≡ (p + q) % 2
differ_bits zero zero h g = refl
differ_bits zero (suc zero) h g = refl
differ_bits (suc zero) zero h g = refl
differ_bits (suc zero) (suc zero) h g = refl
differ_bits zero (suc (suc q)) h g = absurd (omega arith)
differ_bits (suc zero) (suc (suc q)) h g = absurd (omega arith)
differ_bits (suc (suc p)) q h g = absurd (omega arith)

bit_xor_digit : (a b : ℕ) → bit_xor a b ≡ bit_xor (a / 2) (b / 2) * 2 + (a % 2 + b % 2) % 2
bit_xor_digit a b =
    bit_xor_step a b ∙ rw (differ_bits (a % 2) (b % 2) (omega arith) (omega arith)) refl

pub bit_xor-lt : (k a b : ℕ) → a < 2 ^ k → b < 2 ^ k → bit_xor a b < 2 ^ k
bit_xor-lt zero zero zero h g = omega arith
bit_xor-lt zero (suc a) b h g = absurd (omega arith)
bit_xor-lt zero zero (suc b) h g = absurd (omega arith)
bit_xor-lt (suc k) a b h g =
    let size = pow-suc 2 k in
    omega (
      arith,
      size,
      bit_xor_digit a b,
      bit_xor-lt k (a / 2) (b / 2) (omega (arith, size)) (omega (arith, size)),
    )

-- A word is known from its exclusive or with another.
pub bit_xor_cancel_right : (k a b c : ℕ) → a < 2 ^ k → b < 2 ^ k → bit_xor a c ≡ bit_xor b c → a ≡ b
bit_xor_cancel_right zero a b c h g e = omega arith
bit_xor_cancel_right (suc k) a b c h g e =
    let size = pow-suc 2 k in
    let half : bit_xor (a / 2) (c / 2) ≡ bit_xor (b / 2) (c / 2) =
      omega (arith, e, bit_xor_digit a c, bit_xor_digit b c) in
    omega (
      arith,
      e,
      bit_xor_digit a c,
      bit_xor_digit b c,
      bit_xor_cancel_right k (a / 2) (b / 2) (c / 2) (omega (arith, size)) (omega (arith, size))
          half,
    )

pub bit_xor_cancel_left : (k a b c : ℕ) → a < 2 ^ k → b < 2 ^ k → bit_xor c a ≡ bit_xor c b → a ≡ b
bit_xor_cancel_left zero a b c h g e = omega arith
bit_xor_cancel_left (suc k) a b c h g e =
    let size = pow-suc 2 k in
    let half : bit_xor (c / 2) (a / 2) ≡ bit_xor (c / 2) (b / 2) =
      omega (arith, e, bit_xor_digit c a, bit_xor_digit c b) in
    omega (
      arith,
      e,
      bit_xor_digit c a,
      bit_xor_digit c b,
      bit_xor_cancel_left k (a / 2) (b / 2) (c / 2) (omega (arith, size)) (omega (arith, size))
          half,
    )
