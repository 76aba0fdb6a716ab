-- ===== src/Gen/Structure/Reach.antt =====
-- How far a tree reaches from its anchor.
use voxel.Base.{
  ℕ, ◌+◌, ◌≤◌, ◌<◌, inl, inr, List, [], ◌∷◌, ◌++◌, arith, leb, Bool-cases, All, All-append,
}
use voxel.Base.Int32.{IsInt, int_add, int_sub, int_abs}
use voxel.Base.Loops.{for_below_inv}
use voxel.Gen.Hash.{surface_height, trunk_height}
use voxel.Gen.Hash.Bounds.{heights-Band}
use voxel.Gen.Structure.{
  Callback, canopy_cell, canopy, trunk, for_each_structure_cell, reach_xz, wood, leaves,
}

-- Two columns at most from the anchor along x and along z, above the surface, and at most 8 cells.
abbrev pub InReach : ℕ → ℕ → ℕ → ℕ → ℕ → ℕ → Type 0
InReach seed wx wz x y z =
    (int_add (int_sub x wx) 2 ≤ 4)
    × (int_add (int_sub z wz) 2 ≤ 4)
    × (surface_height seed wx wz < y)
    × (y ≤ surface_height seed wx wz + 8)

-- One of the contents, which are numbered from 0 to 6.
abbrev pub IsContent : ℕ → Type 0
IsContent c = c < 7

module _ {ℓ κ} {S : Type ℓ} (P : S → Type κ) (seed wx wz : ℕ) (cb : Callback S) (hx : IsInt wx)
    (hz : IsInt wz)
    (keep : (x y z c : ℕ) (s : S)
      → InReach seed wx wz x y z
      → IsContent c
      → P s
      → P (cb x y z c s)) where
  top_here : ℕ
  top_here = surface_height seed wx wz + trunk_height seed wx wz

  cell_keeps :
      (k j i : ℕ) (s : S)
      → k < 5
      → j < 5
      → i < 5
      → P s
      → P (
          canopy_cell seed wx wz cb top_here
            (int_sub k reach_xz)
            (int_sub j reach_xz)
            (int_sub i reach_xz)
            s)
  unfolding canopy_cell top_here
  cell_keeps k j i s hk hj hi h =
      let (low, high, small, tall) = heights-Band seed wx wz in
      elim (Bool-cases (
        leb
          (int_abs (int_sub i reach_xz)
            + int_abs (int_sub j reach_xz)
            + int_abs (int_sub k reach_xz))
          reach_xz)) [
            | inl e ↦ rw e (
                keep _ _ _ leaves s (omega arith, omega arith, omega arith, omega arith)
                  (omega arith) h)
            | inr e ↦ rw e h
          ]

  -- What holds at the start and is kept by every call back within reach holds after the structure.
  pub for_each_structure_cell_inv : (s : S) → P s → P (for_each_structure_cell seed wx wz cb s)
  unfolding for_each_structure_cell canopy trunk top_here
  for_each_structure_cell_inv s h =
      let (low, high, small, tall) = heights-Band seed wx wz in
      let crown : P (canopy seed wx wz cb top_here s) =
        for_below_inv (λ _. P) _ 5
          (λ k t hk ht.
            for_below_inv (λ _. P) _ 5
              (λ j u hj hu.
                for_below_inv (λ _. P) _ 5 (λ i v hi hv. cell_keeps k j i v hk hj hi hv) u hu)
              t ht)
          s h in
      for_below_inv (λ _. P) _ _
        (λ i t hi ht.
          keep wx _ wz wood t (omega arith, omega arith, omega arith, omega arith) (omega arith) ht)
        _ crown

pub record StructureCell : Type 0 where
  pub x : ℕ
  pub y : ℕ
  pub z : ℕ
  pub content : ℕ

abbrev pub collect : Callback (List StructureCell)
collect x y z c cells = cells ++ record { x = x; y = y; z = z; content = c } ∷ []

-- Every cell of a structure lies at most two columns from its anchor along x and along z, above the
-- surface there, and at most 8 cells above it.
pub for_each_structure_cell-InReach :
    (seed wx wz : ℕ)
    → IsInt wx
    → IsInt wz
    → All (λ c. InReach seed wx wz c.x c.y c.z) (for_each_structure_cell seed wx wz collect [])
for_each_structure_cell-InReach seed wx wz hx hz =
    for_each_structure_cell_inv (All (λ c. InReach seed wx wz c.x c.y c.z)) seed wx wz collect hx hz
      (λ x y z c s near small h. All-append _ s _ h (near, tt)) [] tt
