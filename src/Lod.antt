-- ===== src/Lod.antt =====
-- The node keys of the LOD pyramid: src/world/lod_pyramid.hpp. Coordinates are integers: the source
-- computes them in 32 bits, which they fit.
pub mod Family
pub mod Chain
pub mod Storage
pub mod Hash
pub mod Payload
mod Examples
use voxel.Base.{
  ℕ, zero, suc, ◌+◌, ◌-◌, ◌*◌, ◌/◌, ◌%◌, ◌^◌, ◌≤◌, ◌<◌, bit_and, bit_or, bit_xor, ◌≡◌, refl, sym,
  ap, ◌∙◌, subst, ◌≢◌, ◌↔◌, ◌⊎◌, inl, inr, Bool, true, false, not, ◌&&◌, ◌||◌, Option, none, some,
  List, [], ◌∷◌, ◌++◌, map, append_assoc, append-nil, arith, dec_lt, dec_le, ℕ_discrete, ltb, leb,
  ◌==◌, if◌then◌else◌, ltb→lt, lt→ltb, ltb-false→le, ==_iff, ==_refl, Bool-cases, Bool-agree,
  Option-cases, length, get_elem?, get_or, set, replicate, All, length-append, length-set,
  length-replicate, get_or-append_right, get_or-append_left, get_or-append_last, get_or-set_self,
  get_or-set_ne, get_or-replicate, eq_of_get_or, All-get_or, All-append, All-set, take, drop,
  take-append, drop-append, set-append, eq_tabulate, ◌>>=◌, ◌>>◌, reject, >>=-eq-some, reject->>,
  some_inj,
}
use voxel.Base.Int.{ℤ, pos, negsuc}

abbrev pub lod_top_level : ℕ
lod_top_level = 28

pub record LodNodeKey : Type 0 where
  pub level : ℕ
  pub x : ℤ
  pub y : ℤ
  pub z : ℤ

unfoldable pub lod_key_for_chunk : ℤ → ℤ → ℤ → LodNodeKey
lod_key_for_chunk cx cy cz = record { level = 0; x = cx; y = cy; z = cz }

-- `v >> 1`
unfoldable pub lod_floor_half : ℤ → ℤ
lod_floor_half (pos n) = pos (n / 2)
lod_floor_half (negsuc n) = negsuc (n / 2)

unfoldable pub lod_parent : LodNodeKey → Option LodNodeKey
lod_parent k =
    if leb lod_top_level k.level
    then none
    else some record {
      level = (k.level + 1) % 256;
      x = lod_floor_half k.x;
      y = lod_floor_half k.y;
      z = lod_floor_half k.z;
    }

-- `v & 1` in two's complement.
unfoldable pub low_bit : ℤ → ℕ
low_bit (pos n) = n % 2
low_bit (negsuc n) = 1 - n % 2

unfoldable pub lod_octant_of : LodNodeKey → ℕ
lod_octant_of k = bit_or (bit_or (low_bit k.x) (low_bit k.y * 2)) (low_bit k.z * 2 ^ 2) % 256

-- `(v * 2) + bit`. The source computes in 32 bits, where a coordinate outside of -2 ^ 30 to 2 ^ 30 - 1
-- overflows: those are left out.
unfoldable pub double_add : ℤ → ℕ → ℤ
double_add (pos n) bit = pos (n * 2 + bit)
double_add (negsuc n) bit = negsuc (n * 2 + 1 - bit)

unfoldable pub lod_child : LodNodeKey → ℕ → Option LodNodeKey
lod_child k octant =
    if k.level == 0 || ltb 7 octant
    then none
    else some record {
      level = (k.level - 1) % 256;
      x = double_add k.x (bit_and octant 1);
      y = double_add k.y (bit_and (octant / 2) 1);
      z = double_add k.z (bit_and (octant / 2 ^ 2) 1);
    }

-- The loop of lodDirtyChain, with the rounds that are allowed.
unfoldable pub chain_from : ℕ → LodNodeKey → List LodNodeKey
chain_from zero k = []
chain_from (suc n) k = elim (lod_parent k) [ none ↦ [] | some p ↦ p ∷ chain_from n p ]

unfoldable pub lod_dirty_chain : ℤ → ℤ → ℤ → List LodNodeKey
lod_dirty_chain cx cy cz =
    let k = lod_key_for_chunk cx cy cz in k ∷ chain_from (lod_top_level + 1) k
