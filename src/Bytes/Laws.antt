-- ===== src/Bytes/Laws.antt =====
-- What is written little-endian is read back, wherever it stands in a longer byte vector.
use native.Mathlib.Nat.{
  pow-suc, one-le-pow, mod-lt, div-add-mod', div-div-eq-div-mul, zero-add, pow-zero, mod-one,
  mod-eq_of_lt,
}
use voxel.Base.{
  ℕ, zero, suc, ◌+◌, ◌*◌, ◌/◌, ◌%◌, ◌^◌, ◌<◌, ◌≡◌, refl, ap, ◌∙◌, arith, List, [], ◌∷◌, ◌++◌,
  length, get_or-append_left, get_or-append_right, All,
}
use voxel.Base.Bits.{bit_and_mask, bit_or_disjoint}
use voxel.Bytes.{IsByte, byte_at, put_le, get_le, get_u32, get_u64}

pub pow-add : (b m n : ℕ) → b ^ (m + n) ≡ b ^ m * b ^ n
pow-add b m zero = let e : m + 0 ≡ m = omega arith in rw (e, pow-zero b) (omega arith)
pow-add b m (suc n) =
    let e : m + suc n ≡ suc (m + n) = omega arith in
    rw (e, pow-suc b (m + n), pow-suc b n, pow-add b m n) (grind arith)

-- The weight of byte `i`.
pub weight_suc : (i : ℕ) → 2 ^ (8 * (i + 1)) ≡ 2 ^ (8 * i) * 256
weight_suc i = let e : 8 * (i + 1) ≡ 8 * i + 8 = omega arith in rw e (pow-add 2 (8 * i) 8)

-- The remainder by a product, digit by digit.
pub mod-mul : (v p q : ℕ) → v % (p * q) ≡ v % p + v / p % q * p
mod-mul v p q = omega (
  arith,
  div-add-mod' v (p * q),
  div-add-mod' v p,
  ap (λ (t : ℕ). t * p) (div-add-mod' (v / p) q),
  ap (λ (t : ℕ). t * (p * q)) (div-div-eq-div-mul v p q),
)

pub length-put_le : (n i v : ℕ) → length (put_le n i v) ≡ n
unfolding put_le
length-put_le zero i v = refl
length-put_le (suc n) i v = ap suc (length-put_le n (i + 1) v)

pub put_le-IsByte : (n i v : ℕ) → All IsByte (put_le n i v)
unfolding put_le
put_le-IsByte zero i v = tt
put_le-IsByte (suc n) i v =
    (omega (arith, bit_and_mask 8 (v / 2 ^ (8 * i))), put_le-IsByte n (i + 1) v)

-- Byte `i` of `v`.
abbrev digit : ℕ → ℕ → ℕ
digit v i = v / 2 ^ (8 * i) % 256

byte_at-put_le : (n i v j : ℕ) → j < n → byte_at (put_le n i v) j ≡ digit v (i + j)
unfolding put_le
byte_at-put_le zero i v j h = elim h [ ]
byte_at-put_le (suc n) i v zero h = let e : i + 0 ≡ i = omega arith in rw e (bit_and_mask 8 _)
byte_at-put_le (suc n) i v (suc j) h =
    let e : i + suc j ≡ i + 1 + j = omega arith in rw e (byte_at-put_le n (i + 1) v j (omega arith))

-- The loop collects the low bytes of `v`, if those are what it finds.
get_le-digits :
    (n i v : ℕ) (bytes : List ℕ) (at : ℕ)
    → ((j : ℕ) → j < i + n → byte_at bytes (at + j) ≡ digit v j)
    → get_le n i (v % 2 ^ (8 * i)) bytes at ≡ v % 2 ^ (8 * (i + n))
unfolding get_le
get_le-digits zero i v bytes at h = let e : i + 0 ≡ i = omega arith in rw e
get_le-digits (suc n) i v bytes at h =
    let e : i + suc n ≡ i + 1 + n = omega arith in
    rw
      (
        h i (omega arith),
        bit_or_disjoint (8 * i) (v % 2 ^ (8 * i)) (digit v i)
            (mod-lt v (one-le-pow (8 * i) 2 (omega arith))),
        ← mod-mul v (2 ^ (8 * i)) 256,
        ← weight_suc i,
        e,
      )
      (get_le-digits n (i + 1) v bytes at (λ j lt. h j (omega arith)))

-- Writing `n` bytes of `v` at the place `at` of a vector, and reading them there.
pub get_le-put_le :
    (n v : ℕ) (front back : List ℕ) (at : ℕ)
    → at ≡ length front
    → v < 2 ^ (8 * n)
    → get_le n 0 0 (front ++ (put_le n 0 v ++ back)) at ≡ v
get_le-put_le n v front back at e h =
    let e₀ : 0 + n ≡ n = omega arith in
    let all = get_le-digits n 0 v (front ++ (put_le n 0 v ++ back)) at found in
    rw (mod-one v, e₀, mod-eq_of_lt h) at all
  where
    found : (j : ℕ) → j < 0 + n → byte_at (front ++ (put_le n 0 v ++ back)) (at + j) ≡ digit v j
    found j lt =
        rw (e, get_or-append_right front (put_le n 0 v ++ back) j 0)
          (get_or-append_left (put_le n 0 v) back j 0 (rw (length-put_le n 0 v) (omega arith))
            ∙ byte_at-put_le n 0 v j (omega arith)
            ∙ ap (digit v) (zero-add j))

module _ (v : ℕ) (front back : List ℕ) (at : ℕ) (e : at ≡ length front) where
  pub get_u32-put_le : v < 2 ^ 32 → get_u32 (front ++ (put_le 4 0 v ++ back)) at ≡ v
  unfolding get_u32
  get_u32-put_le h = get_le-put_le 4 v front back at e h

  pub get_u64-put_le : v < 2 ^ 64 → get_u64 (front ++ (put_le 8 0 v ++ back)) at ≡ v
  unfolding get_u64
  get_u64-put_le h = get_le-put_le 8 v front back at e h

pub byte_at-IsByte : (bytes : List ℕ) (at : ℕ) → All IsByte bytes → IsByte (byte_at bytes at)
byte_at-IsByte [] at a = omega arith
byte_at-IsByte (b ∷ bytes) zero a = a.0
byte_at-IsByte (b ∷ bytes) (suc at) a = byte_at-IsByte bytes at a.1

get_le-lt :
    (n i v : ℕ) (bytes : List ℕ) (at : ℕ)
    → All IsByte bytes
    → v < 2 ^ (8 * i)
    → get_le n i v bytes at < 2 ^ (8 * (i + n))
unfolding get_le
get_le-lt zero i v bytes at a h = let e : i + 0 ≡ i = omega arith in rw e h
get_le-lt (suc n) i v bytes at a h =
    let b = byte_at bytes (at + i) in
    let e : i + suc n ≡ i + 1 + n = omega arith in
    let grown : v + b * 2 ^ (8 * i) < 2 ^ (8 * (i + 1)) =
      grind (arith, weight_suc i, byte_at-IsByte bytes (at + i) a) in
    rw (e, bit_or_disjoint (8 * i) v b h) (get_le-lt n (i + 1) _ bytes at a grown)

-- What is read from a vector of bytes fits the word.
pub get_u32-lt : (bytes : List ℕ) (at : ℕ) → All IsByte bytes → get_u32 bytes at < 2 ^ 32
unfolding get_u32
get_u32-lt bytes at a = get_le-lt 4 0 0 bytes at a (omega arith)

pub get_u64-lt : (bytes : List ℕ) (at : ℕ) → All IsByte bytes → get_u64 bytes at < 2 ^ 64
unfolding get_u64
get_u64-lt bytes at a = get_le-lt 8 0 0 bytes at a (omega arith)
