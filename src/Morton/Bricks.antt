-- ===== src/Morton/Bricks.antt =====
-- The Morton order as arithmetic: the code is a sum of three spread coordinates, each aligned 8^3
-- brick is a run of 512 codes, and the cells of a chunk of edge 2 ^ k take the codes below 8 ^ k.
use voxel.Base.{
  ℕ, ◌+◌, ◌*◌, ◌/◌, ◌%◌, ◌^◌, ◌<◌, ◌≤◌, bit_and, bit_or, ◌≡◌, refl, arith, ltb, lt→ltb,
  if◌then◌else◌,
}
use voxel.Base.Bits.{bit_and-bit_or, bit_or-eq-add, holds_below, table_eq, table_eq₂, zero-bit_or}
use native.Mathlib.Nat.{one-le-pow, pow-le-pow_right, div-lt_iff_lt-mul, one-mul}
use voxel.Morton.{spread3, LocalPos, morton_encode}
use voxel.Morton.RoundTrip.{InCube}

apart_by_one : (x y : ℕ) → x < 32 → y < 32 → bit_and (spread3 x) (spread3 y * 2) ≡ 0
unfolding holds_below spread3
apart_by_one = table_eq₂ 32 32 (λ x y. bit_and (spread3 x) (spread3 y * 2)) (λ _ _. 0) refl

apart_by_two : (x y : ℕ) → x < 32 → y < 32 → bit_and (spread3 x) (spread3 y * 4) ≡ 0
unfolding holds_below spread3
apart_by_two = table_eq₂ 32 32 (λ x y. bit_and (spread3 x) (spread3 y * 4)) (λ _ _. 0) refl

apart_doubled : (x y : ℕ) → x < 32 → y < 32 → bit_and (spread3 x * 2) (spread3 y * 4) ≡ 0
unfolding holds_below spread3
apart_doubled = table_eq₂ 32 32 (λ x y. bit_and (spread3 x * 2) (spread3 y * 4)) (λ _ _. 0) refl

pub morton_encode_sum :
    (p : LocalPos) → InCube p → morton_encode p ≡ spread3 p.x + spread3 p.y * 2 + spread3 p.z * 4
unfolding morton_encode
morton_encode_sum p (hx, hy, hz) =
    let first = bit_or-eq-add _ _ (apart_by_one p.x p.y hx hy) in
    let disjoint : bit_and (bit_or (spread3 p.x) (spread3 p.y * 2)) (spread3 p.z * 4) ≡ 0 =
      simp (bit_and-bit_or, apart_by_two p.x p.z hx hz, apart_doubled p.y p.z hy hz, zero-bit_or) in
    omega (arith, first, bit_or-eq-add _ _ disjoint)

spread3_brick : (v : ℕ) → v < 32 → spread3 v ≡ spread3 (v / 8) * 512 + spread3 (v % 8)
unfolding holds_below spread3
spread3_brick = table_eq 32 spread3 (λ v. spread3 (v / 8) * 512 + spread3 (v % 8)) refl

-- The brick that a position lies in, and the position inside that brick.
abbrev pub brick_of : LocalPos → LocalPos
brick_of p = record { x = p.x / 8; y = p.y / 8; z = p.z / 8 }

abbrev pub within_brick : LocalPos → LocalPos
within_brick p = record { x = p.x % 8; y = p.y % 8; z = p.z % 8 }

-- Within the 32-cell cube the 512 cells of an aligned 8^3 brick have consecutive codes: the code
-- of a position is 512 times the code of its brick, plus its code inside the brick.
pub morton_encode_brick :
    (p : LocalPos)
    → InCube p
    → morton_encode p ≡ morton_encode (brick_of p) * 512 + morton_encode (within_brick p)
morton_encode_brick p (hx, hy, hz) = omega (
  arith,
  morton_encode_sum p (hx, hy, hz),
  morton_encode_sum (brick_of p) (omega arith),
  morton_encode_sum (within_brick p) (omega arith),
  spread3_brick p.x hx,
  spread3_brick p.y hy,
  spread3_brick p.z hz,
)

spread3_bound :
    (k v : ℕ) → k < 6 → v < 32 → (if ltb v (2 ^ k) then spread3 v * 7 / 8 ^ k else 0) ≡ 0
unfolding holds_below spread3
spread3_bound =
    table_eq₂ 6 32 (λ k v. if ltb v (2 ^ k) then spread3 v * 7 / 8 ^ k else 0) (λ _ _. 0) refl

zero_of_div : (a b : ℕ) → 0 < b → a / b ≡ 0 → a < b
zero_of_div a b h e = (div-lt_iff_lt-mul {k = b} {x = a} {y = 1} h).0 (omega arith) ∙≤ one-mul b
  where
    infixl 30 ◌∙≤◌
    ◌∙≤◌ : {m n k : ℕ} → m < n → n ≡ k → m < k
    h ∙≤ e = omega arith

spread3-lt : (k v : ℕ) → k < 6 → v < 32 → v < 2 ^ k → spread3 v * 7 < 8 ^ k
spread3-lt k v hk hv h =
    zero_of_div (spread3 v * 7) (8 ^ k) (one-le-pow k 8 (omega arith))
      (rw (lt→ltb _ _ h) at (spread3_bound k v hk hv))

pow-le-32 : (k : ℕ) → k < 6 → 2 ^ k ≤ 32
pow-le-32 k h = pow-le-pow_right {n = 2} (omega arith) {i = k} {j = 5} (omega arith)

-- The positions of a cube of edge 2 ^ k, for k up to 5.
abbrev pub InExtent : ℕ → LocalPos → Type 0
InExtent k p = (p.x < 2 ^ k) × (p.y < 2 ^ k) × (p.z < 2 ^ k)

pub InExtent-InCube : (k : ℕ) (p : LocalPos) → k < 6 → InExtent k p → InCube p
InExtent-InCube k p hk (hx, hy, hz) = omega (arith, pow-le-32 k hk)

-- For k up to 5 the positions of a cube of edge 2 ^ k have codes below 8 ^ k, its cell count.
pub morton_encode-lt : (k : ℕ) (p : LocalPos) → k < 6 → InExtent k p → morton_encode p < 8 ^ k
morton_encode-lt k p hk h =
    let (cx, cy, cz) = InExtent-InCube k p hk h in
    omega (
      arith,
      morton_encode_sum p (cx, cy, cz),
      spread3-lt k p.x hk cx h.0,
      spread3-lt k p.y hk cy h.1,
      spread3-lt k p.z hk cz h.2,
    )
