-- ===== src/Gen/Structure.antt =====
-- src/gen/minigen.cpp, forEachStructureCell: the cells of one tree, in emission order.
pub mod Reach
use voxel.Base.{
  ℕ, zero, suc, ◌+◌, ◌-◌, ◌*◌, ◌/◌, ◌%◌, ◌^◌, ◌≤◌, ◌<◌, bit_and, bit_or, bit_xor, ◌≡◌, refl, sym,
  ap, ◌∙◌, subst, ◌≢◌, ◌↔◌, ◌⊎◌, inl, inr, Bool, true, false, not, ◌&&◌, ◌||◌, Option, none, some,
  List, [], ◌∷◌, ◌++◌, map, append_assoc, append-nil, arith, dec_lt, dec_le, ℕ_discrete, ltb, leb,
  ◌==◌, if◌then◌else◌, ltb→lt, lt→ltb, ltb-false→le, ==_iff, ==_refl, Bool-cases, Bool-agree,
  Option-cases, length, get_elem?, get_or, set, replicate, All, length-append, length-set,
  length-replicate, get_or-append_right, get_or-append_left, get_or-append_last, get_or-set_self,
  get_or-set_ne, get_or-replicate, eq_of_get_or, All-get_or, All-append, All-set, take, drop,
  take-append, drop-append, set-append, eq_tabulate, ◌>>=◌, ◌>>◌, reject, >>=-eq-some, reject->>,
  some_inj, get_or-map, length-map,
}
use voxel.Base.Int32.{int_add, int_sub, int_abs, int_lt}
use voxel.Base.Loops.{for_below}
use voxel.Gen.Hash.{surface_height, trunk_height}

abbrev pub air : ℕ
air = 0

abbrev pub stone : ℕ
stone = 1

abbrev pub dirt : ℕ
dirt = 2

abbrev pub grass : ℕ
grass = 3

abbrev pub wood : ℕ
wood = 4

abbrev pub leaves : ℕ
leaves = 5

abbrev pub flower : ℕ
flower = 6

abbrev pub reach_xz : ℕ
reach_xz = 2

-- `cb(ctx, wx, wy, wz, c)` on the state `ctx` stands for.
abbrev pub Callback {ℓ} : Type ℓ → Type ℓ
Callback S = ℕ → ℕ → ℕ → ℕ → S → S

module _ {ℓ} {S : Type ℓ} (seed wx wz : ℕ) (cb : Callback S) where
  -- One cell of the canopy's cube.
  unfoldable pub canopy_cell : ℕ → ℕ → ℕ → ℕ → S → S
  canopy_cell top dz dy dx s =
      let manhattan = int_abs dx + int_abs dy + int_abs dz in
      if leb manhattan reach_xz
      then cb (int_add wx dx) (int_add top dy) (int_add wz dz) leaves s
      else s

  -- The counters run from -2 to 2.
  unfoldable pub canopy : ℕ → S → S
  canopy top = for_below 5 (λ k. for_below 5 (λ j.
      for_below 5
        (λ i. canopy_cell top (int_sub k reach_xz) (int_sub j reach_xz) (int_sub i reach_xz))))

  unfoldable pub trunk : ℕ → ℕ → S → S
  trunk h top = for_below (top - h) (λ i. cb wx (h + 1 + i) wz wood)

  unfoldable pub for_each_structure_cell : S → S
  for_each_structure_cell s =
      let h = surface_height seed wx wz in
      let top = h + trunk_height seed wx wz in trunk h top (canopy top s)
