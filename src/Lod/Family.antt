-- ===== src/Lod/Family.antt =====
-- Parents, children and octants.
use voxel.Base.{
  ℕ, ◌+◌, ◌-◌, ◌*◌, ◌/◌, ◌%◌, ◌^◌, ◌≤◌, ◌<◌, bit_and, bit_or, ◌≡◌, ap, inl, inr, ◌||◌, none, some,
  arith, ltb, ◌==◌, Bool-cases, some_inj,
}
use voxel.Base.Bits.{bit_or_disjoint, bit_and_mask}
use voxel.Base.Int.{ℤ, pos, negsuc, IsInt32}
use voxel.Lod.{
  LodNodeKey, lod_top_level, lod_floor_half, lod_parent, low_bit, lod_octant_of, double_add,
  lod_child,
}

low_bit-lt : (v : ℤ) → low_bit v < 2
unfolding low_bit
low_bit-lt (pos n) = omega arith
low_bit-lt (negsuc n) = omega arith

-- A coordinate is its half and its low bit.
double_add-halves : (v : ℤ) → double_add (lod_floor_half v) (low_bit v) ≡ v
unfolding double_add lod_floor_half low_bit
double_add-halves (pos n) = ap pos (omega arith)
double_add-halves (negsuc n) = ap negsuc (omega arith)

halves-double_add :
    (v : ℤ) (b : ℕ) → b < 2 → (lod_floor_half (double_add v b) ≡ v) × (low_bit (double_add v b) ≡ b)
unfolding double_add lod_floor_half low_bit
halves-double_add (pos n) b h = (ap pos (omega (arith, h)), omega (arith, h))
halves-double_add (negsuc n) b h = (ap negsuc (omega (arith, h)), omega (arith, h))

octant_sum :
    (a b c : ℕ)
    → a < 2
    → b < 2
    → c < 2
    → bit_or (bit_or a (b * 2)) (c * 2 ^ 2) % 256 ≡ a + b * 2 + c * 4
octant_sum a b c h g k =
    rw (bit_or_disjoint 1 a b h, bit_or_disjoint 2 (a + b * 2) c (omega arith)) (omega arith)

bit_and-one : (a : ℕ) → bit_and a 1 ≡ a % 2
bit_and-one a = bit_and_mask 1 a

abbrev child_key : LodNodeKey → ℕ → LodNodeKey
child_key k octant = record {
  level = (k.level - 1) % 256;
  x = double_add k.x (bit_and octant 1);
  y = double_add k.y (bit_and (octant / 2) 1);
  z = double_add k.z (bit_and (octant / 2 ^ 2) 1);
}

child_of : (k c : LodNodeKey) (octant : ℕ) → lod_child k octant ≡ some c → child_key k octant ≡ c
unfolding lod_child
child_of k c octant e = elim (Bool-cases (k.level == 0 || ltb 7 octant)) [
  | inl y ↦ let stop : none ≡ some c = rw (lod_child, y) at e in absurd cc
  | inr n ↦
      let here : some (child_key k octant) ≡ some c = rw (lod_child, n) at e in some_inj _ _ here
]

-- Twice the coordinate, and one more, fit 32 bits.
abbrev pub CanDouble : ℤ → Type 0
CanDouble (pos n) = n < 2 ^ 30
CanDouble (negsuc n) = n < 2 ^ 30

double_add-IsInt32 : (v : ℤ) (b : ℕ) → b < 2 → CanDouble v → IsInt32 (double_add v b)
unfolding double_add
double_add-IsInt32 (pos n) b h g = omega arith
double_add-IsInt32 (negsuc n) b h g = omega arith

-- For a node of the levels up to the top one, whose coordinates lie between -2 ^ 30 and 2 ^ 30 - 1:
-- the coordinates of a child fit 32 bits, the child's parent is the node again, and the child's
-- octant is the one it was made for.
pub lod_parent-lod_child :
    (k c : LodNodeKey) (octant : ℕ)
    → k.level ≤ lod_top_level
    → CanDouble k.x
    → CanDouble k.y
    → CanDouble k.z
    → lod_child k octant ≡ some c
    → (lod_parent c ≡ some k) × (lod_octant_of c ≡ octant) × IsInt32 c.x × IsInt32 c.y × IsInt32 c.z
unfolding lod_parent lod_child lod_octant_of
lod_parent-lod_child k c octant h kx ky kz e =
    let a = bit_and-one octant in
    let b = bit_and-one (octant / 2) in
    let d = bit_and-one (octant / 2 ^ 2) in
    let ha : bit_and octant 1 < 2 = omega (arith, a) in
    let hb : bit_and (octant / 2) 1 < 2 = omega (arith, b) in
    let hd : bit_and (octant / 2 ^ 2) 1 < 2 = omega (arith, d) in
    let px = halves-double_add k.x (bit_and octant 1) ha in
    let py = halves-double_add k.y (bit_and (octant / 2) 1) hb in
    let pz = halves-double_add k.z (bit_and (octant / 2 ^ 2) 1) hd in
    let sum =
      octant_sum (bit_and octant 1) (bit_and (octant / 2) 1) (bit_and (octant / 2 ^ 2) 1) ha hb
        hd in
    let is_child = child_of k c octant e in
    let back : (lod_parent c ≡ some k) × (lod_octant_of c ≡ octant) = ground (arith, sum) in
    (
      back.0,
      back.1,
      rw (← is_child) (double_add-IsInt32 k.x (bit_and octant 1) ha kx),
      rw (← is_child) (double_add-IsInt32 k.y (bit_and (octant / 2) 1) hb ky),
      rw (← is_child) (double_add-IsInt32 k.z (bit_and (octant / 2 ^ 2) 1) hd kz),
    )

-- A node is the child of its parent at its own octant.
pub lod_child-lod_parent :
    (k p : LodNodeKey) → lod_parent k ≡ some p → lod_child p (lod_octant_of k) ≡ some k
unfolding lod_parent lod_child lod_octant_of
lod_child-lod_parent k p e =
    let o =
      octant_sum (low_bit k.x) (low_bit k.y) (low_bit k.z) (low_bit-lt k.x) (low_bit-lt k.y)
        (low_bit-lt k.z) in
    let lx = low_bit-lt k.x in
    let ly = low_bit-lt k.y in
    let lz = low_bit-lt k.z in
    let octant = bit_or (bit_or (low_bit k.x) (low_bit k.y * 2)) (low_bit k.z * 2 ^ 2) % 256 in
    let bx : bit_and octant 1 ≡ low_bit k.x = omega (arith, bit_and-one octant, o, lx, ly, lz) in
    let by : bit_and (octant / 2) 1 ≡ low_bit k.y =
      omega (arith, bit_and-one (octant / 2), o, lx, ly, lz) in
    let bz : bit_and (octant / 2 ^ 2) 1 ≡ low_bit k.z =
      omega (arith, bit_and-one (octant / 2 ^ 2), o, lx, ly, lz) in
    let dx = double_add-halves k.x in
    let dy = double_add-halves k.y in let dz = double_add-halves k.z in ground arith
