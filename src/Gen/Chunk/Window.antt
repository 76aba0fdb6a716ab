-- ===== src/Gen/Chunk/Window.antt =====
-- The window of columns that a chunk gathers from misses no structure.
use voxel.Base.{
  ℕ, ◌+◌, ◌^◌, ◌≤◌, ◌<◌, ◌≡◌, refl, ◌∙◌, ◌⊎◌, inl, inr, Bool, true, false, ◌&&◌, arith,
  if◌then◌else◌, Bool-cases,
}
use voxel.Base.Int32.{IsInt, int_add, int_sub}
use voxel.Base.Loops.{for_below, for_below_middle, for_below_ext, idle}
use voxel.Gen.Chunk.{
  GenChunk, GenChunkPos, gen_edge, base_of, on_edge, write_cell_into_chunk, gather_anchors,
}
use voxel.Gen.Hash.{is_anchor}
use voxel.Gen.Structure.{for_each_structure_cell, reach_xz}
use voxel.Gen.Structure.Reach.{InReach, for_each_structure_cell_inv}

-- The column lies in the window that starts two columns before the base.
abbrev pub Outside : ℕ → ℕ → Type 0
Outside base w = gen_edge + 4 ≤ int_add (int_sub w base) reach_xz

off_edge : (r : ℕ) → gen_edge ≤ r → IsInt r → on_edge r ≡ false
off_edge r low high = ground arith

misses :
    (base w v : ℕ)
    → IsInt base
    → IsInt w
    → Outside base w
    → int_add (int_sub v w) 2 ≤ 4
    → on_edge (int_sub v base) ≡ false
misses base w v hb hw outside near = off_edge (int_sub v base) (omega arith) (omega arith)

-- A structure whose anchor column is outside of the window writes no cell of the chunk.
pub for_each_structure_cell-Outside :
    (seed wx wz bx by bz : ℕ) (chunk : GenChunk)
    → IsInt wx
    → IsInt wz
    → IsInt bx
    → IsInt bz
    → Outside bx wx ⊎ Outside bz wz
    → for_each_structure_cell seed wx wz (write_cell_into_chunk bx by bz) chunk ≡ chunk
unfolding write_cell_into_chunk
for_each_structure_cell-Outside seed wx wz bx by bz chunk hx hz hbx hbz outside =
    for_each_structure_cell_inv (λ s. s ≡ chunk) seed wx wz (write_cell_into_chunk bx by bz) hx hz
      (λ x y z c s near small same. rw (off x y z near) same) chunk refl
  where
    off :
        (x y z : ℕ)
        → InReach seed wx wz x y z
        → (on_edge (int_sub x bx) && (on_edge (int_sub y by) && on_edge (int_sub z bz))) ≡ false
    off x y z (near_x, near_z, _, _) = elim outside [
      | inl o ↦ rw (misses bx wx x hbx hx o near_x) refl
      | inr o ↦
          rw (misses bz wz z hbz hz o near_z)
            (never (on_edge (int_sub x bx)) (on_edge (int_sub y by)))
    ]
      where
        never : (p q : Bool) → (p && (q && false)) ≡ false
        never true true = refl
        never true false = refl
        never false q = refl

module _ (seed k : ℕ) (cp : GenChunkPos) (small : k < 2 ^ 16) where
  -- One column of the window that is `2 + k` wider on every side.
  place : ℕ → ℕ → GenChunk → GenChunk
  place j i chunk =
      let bx = base_of cp.cx in
      let by = base_of cp.cy in
      let bz = base_of cp.cz in
      let margin = k + reach_xz in
      let wz = int_add (int_sub bz margin) j in
      let wx = int_add (int_sub bx margin) i in
      if is_anchor seed wx wz
      then for_each_structure_cell seed wx wz (write_cell_into_chunk bx by bz) chunk
      else chunk

  place_outside :
      (j i : ℕ)
      → j < k + 20 + k
      → i < k + 20 + k
      → ((i < k) ⊎ (k + 20 ≤ i)) ⊎ ((j < k) ⊎ (k + 20 ≤ j))
      → (chunk : GenChunk) → place j i chunk ≡ chunk
  unfolding place
  place_outside j i hj hi out chunk =
      let wz = int_add (int_sub (base_of cp.cz) (k + reach_xz)) j in
      let wx = int_add (int_sub (base_of cp.cx) (k + reach_xz)) i in
      elim (Bool-cases (is_anchor seed wx wz)) [
        | inl e ↦ rw e (
            for_each_structure_cell-Outside seed wx wz (base_of cp.cx) (base_of cp.cy)
              (base_of cp.cz) chunk (omega arith) (omega arith) (omega arith) (omega arith)
              (elim out [
                | inl o ↦ inl (beyond (base_of cp.cx) i (omega arith) hi o)
                | inr o ↦ inr (beyond (base_of cp.cz) j (omega arith) hj o)
              ]))
        | inr e ↦ rw e refl
      ]
    where
      beyond :
          (base i : ℕ)
          → IsInt base
          → i < k + 20 + k
          → (i < k) ⊎ (k + 20 ≤ i)
          → Outside base (int_add (int_sub base (k + reach_xz)) i)
      beyond base i hb hi (inl low) = omega arith
      beyond base i hb hi (inr high) = omega arith

  -- The window without the wider margin.
  near : ℕ → ℕ → GenChunk → GenChunk
  near j i chunk =
      let bx = base_of cp.cx in
      let by = base_of cp.cy in
      let bz = base_of cp.cz in
      let wz = int_add (int_sub bz reach_xz) j in
      let wx = int_add (int_sub bx reach_xz) i in
      if is_anchor seed wx wz
      then for_each_structure_cell seed wx wz (write_cell_into_chunk bx by bz) chunk
      else chunk

  place_shift : (j i : ℕ) → (chunk : GenChunk) → place (k + j) (k + i) chunk ≡ near j i chunk
  unfolding place near
  place_shift j i chunk = rw (shift (base_of cp.cz) j, shift (base_of cp.cx) i) refl
    where
      shift :
          (base j : ℕ)
          → int_add (int_sub base (k + reach_xz)) (k + j) ≡ int_add (int_sub base reach_xz) j
      shift base j = omega arith

  row_outside :
      (j : ℕ)
      → j < k + 20 + k
      → (j < k) ⊎ (k + 20 ≤ j)
      → (chunk : GenChunk) → for_below (k + 20 + k) (place j) chunk ≡ chunk
  row_outside j hj out = idle (place j) (k + 20 + k) (λ i hi. place_outside j i hj hi (inr out))

  row_inside :
      (j : ℕ)
      → k + j < k + 20 + k
      → (chunk : GenChunk)
      → for_below (k + 20 + k) (place (k + j)) chunk ≡ for_below 20 (near j) chunk
  row_inside j hj chunk =
      for_below_middle (place (k + j)) k 20 k
        (λ i hi. place_outside (k + j) i hj (omega arith) (inl (inl hi)))
        (λ i low hi. place_outside (k + j) i hj hi (inl (inr low))) chunk
      ∙ for_below_ext _ (near j) 20 (λ i hi. place_shift j i) chunk

  -- The window of the chunk's columns and two more on every side is enough: a window that is wider
  -- on every side, by up to 65,535 columns, gives the same chunk.
  pub gather_anchors_wider :
      (chunk : GenChunk)
      → gather_anchors (k + reach_xz) seed cp chunk ≡ gather_anchors reach_xz seed cp chunk
  unfolding gather_anchors place near
  gather_anchors_wider chunk =
      let count : k + reach_xz + gen_edge + (k + reach_xz) ≡ k + 20 + k = omega arith in
      rw count (
        for_below_middle (λ j. for_below (k + 20 + k) (place j)) k 20 k
          (λ j hj. row_outside j (omega arith) (inl hj)) (λ j low hj. row_outside j hj (inr low))
          chunk
        ∙ for_below_ext _ (λ j. for_below 20 (near j)) 20 (λ j hj. row_inside j (omega arith))
            chunk)
