-- ===== src/Morton/RoundTrip.antt =====
-- The two directions of the Morton codec undo one another.
use voxel.Base.{ℕ, ◌*◌, ◌/◌, ◌^◌, ◌<◌, bit_and, bit_or, ◌≡◌, refl, sym, ◌∙◌, arith}
use voxel.Base.Bits.{bit_and-bit_or, bit_or-half, holds_below, table_eq, zero-bit_or, bit_or-zero}
use voxel.Morton.{spread3, gather3, LocalPos, morton_encode, morton_decode, morton_bits_per_axis}

-- A position whose three coordinates fit the bits of an axis.
abbrev pub InCube : LocalPos → Type 0
InCube p =
    (p.x < 2 ^ morton_bits_per_axis)
    × (p.y < 2 ^ morton_bits_per_axis)
    × (p.z < 2 ^ morton_bits_per_axis)

-- What one axis contributes, seen through the mask of each axis.
gather3-spread3 : (v : ℕ) → v < 32 → gather3 (spread3 v) ≡ v
unfolding holds_below spread3 gather3
gather3-spread3 = table_eq 32 (λ v. gather3 (spread3 v)) (λ v. v) refl

mask_own : (v : ℕ) → v < 32 → bit_and (spread3 v) 0x9249 ≡ spread3 v
unfolding holds_below spread3
mask_own = table_eq 32 (λ v. bit_and (spread3 v) 0x9249) spread3 refl

mask_double : (v : ℕ) → v < 32 → bit_and (spread3 v * 2) 0x9249 ≡ 0
unfolding holds_below spread3
mask_double = table_eq 32 (λ v. bit_and (spread3 v * 2) 0x9249) (λ _. 0) refl

mask_fourfold : (v : ℕ) → v < 32 → bit_and (spread3 v * 4) 0x9249 ≡ 0
unfolding holds_below spread3
mask_fourfold = table_eq 32 (λ v. bit_and (spread3 v * 4) 0x9249) (λ _. 0) refl

mask_half : (v : ℕ) → v < 32 → bit_and (spread3 v / 2) 0x9249 ≡ 0
unfolding holds_below spread3
mask_half = table_eq 32 (λ v. bit_and (spread3 v / 2) 0x9249) (λ _. 0) refl

mask_quarter : (v : ℕ) → v < 32 → bit_and (spread3 v / 4) 0x9249 ≡ 0
unfolding holds_below spread3
mask_quarter = table_eq 32 (λ v. bit_and (spread3 v / 4) 0x9249) (λ _. 0) refl

-- `gather3` sees its argument through the mask only.
gather3_masked : (a b : ℕ) → bit_and a 0x9249 ≡ bit_and b 0x9249 → gather3 a ≡ gather3 b
unfolding gather3
gather3_masked a b e = rw e

gather3_own : (a v : ℕ) → v < 32 → bit_and a 0x9249 ≡ spread3 v → gather3 a ≡ v
gather3_own a v h e = gather3_masked a (spread3 v) (e ∙ sym (mask_own v h)) ∙ gather3-spread3 v h

twice-half : (a : ℕ) → a * 2 / 2 ≡ a
twice-half a = omega arith

fourfold-half : (a : ℕ) → a * 4 / 2 ≡ a * 2
fourfold-half a = omega arith

bit_or-quarter : (a b : ℕ) → bit_or a b / 4 ≡ bit_or (a / 4) (b / 4)
bit_or-quarter a b =
    rw (quarter (bit_or a b), quarter a, quarter b, bit_or-half a b, bit_or-half (a / 2) (b / 2))
  where
    quarter : (n : ℕ) → n / 4 ≡ n / 2 / 2
    quarter n = omega arith

twice-quarter : (a : ℕ) → a * 2 / 4 ≡ a / 2
twice-quarter a = omega arith

fourfold-quarter : (a : ℕ) → a * 4 / 4 ≡ a
fourfold-quarter a = omega arith

-- Decoding gives back every position whose coordinates fit in 5 bits.
pub morton_decode-morton_encode : (p : LocalPos) → InCube p → morton_decode (morton_encode p) ≡ p
unfolding morton_decode morton_encode
morton_decode-morton_encode p (hx, hy, hz) = cc (
  gather3_own code p.x hx at_x,
  gather3_own (code / 2) p.y hy at_y,
  gather3_own (code / 4) p.z hz at_z,
)
  where
    open p use {x, y, z}

    code : ℕ
    code = bit_or (bit_or (spread3 x) (spread3 y * 2)) (spread3 z * 4)

    at_x : bit_and code 0x9249 ≡ spread3 x
    at_x = simp (bit_and-bit_or, mask_own x hx, mask_double y hy, mask_fourfold z hz, bit_or-zero)

    at_y : bit_and (code / 2) 0x9249 ≡ spread3 y
    at_y = simp (
      bit_or-half,
      twice-half,
      fourfold-half,
      bit_and-bit_or,
      mask_half x hx,
      mask_own y hy,
      mask_double z hz,
      bit_or-zero,
      zero-bit_or,
    )

    at_z : bit_and (code / 4) 0x9249 ≡ spread3 z
    at_z = simp (
      bit_or-quarter,
      twice-quarter,
      fourfold-quarter,
      bit_and-bit_or,
      mask_quarter x hx,
      mask_half y hy,
      mask_own z hz,
      bit_or-zero,
      zero-bit_or,
    )

-- Encoding gives back every code of 15 bits, so the codes below 2 ^ 15 are in use one and all.
pub morton_encode-morton_decode :
    (code : ℕ) → code < 2 ^ 15 → morton_encode (morton_decode code) ≡ code
unfolding holds_below morton_encode morton_decode spread3 gather3
morton_encode-morton_decode = table_eq 32768 (λ c. morton_encode (morton_decode c)) (λ c. c) refl
