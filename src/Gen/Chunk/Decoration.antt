-- ===== src/Gen/Chunk/Decoration.antt =====
-- What the decoration stage makes of each cell.
use voxel.Base.{
  ℕ, ◌%◌, ◌<◌, ◌≡◌, refl, ◌∙◌, inl, inr, Bool, true, false, ◌&&◌, arith, ◌==◌, if◌then◌else◌,
  lt→ltb, Bool-cases, length-set,
}
use voxel.Base.Loops.{for_below}
use voxel.Gen.Chunk.{
  GenChunk, GenChunkPos, gen_edge, gen_index, chunk_at, chunk_set, decorate_chunk,
}
use voxel.Gen.Chunk.Acts.{IsChunk, Acts, is_cell, chunk_at-chunk_set, Acts-for_below}
use voxel.Gen.Hash.{hash_coords, salt_deco}
use voxel.Gen.Structure.{grass, flower}
use voxel.Gen.Chunk.Stages.{in_slices, in_rows, in_row, world_x, world_y, world_z}

module _ (seed : ℕ) (cp : GenChunkPos) where
  abbrev picks : ℕ → ℕ → ℕ → ℕ → Bool
  picks x y z old =
      old == grass
      && hash_coords seed (world_x cp x) (world_y cp y) (world_z cp z) salt_deco % 7 == 0

  -- Grass that the coordinate hash picks becomes a flower.
  abbrev pub decorated : ℕ → ℕ → ℕ → ℕ → ℕ
  decorated x y z old = if picks x y z old then flower else old

  deco_at : ℕ → ℕ → ℕ → GenChunk → GenChunk
  deco_at z y x inout =
      if picks x y z (chunk_at inout x y z) then chunk_set inout x y z flower else inout

  moved :
      (chunk : GenChunk) (x y z a b c : ℕ) (r : Bool)
      → is_cell x y z a b c ≡ true
      → picks x y z (chunk_at chunk x y z) ≡ r
      → picks a b c (chunk_at chunk a b c) ≡ r
  moved chunk x y z a b c r e h =
      let ex : x ≡ a = ground arith in
      let ey : y ≡ b = ground arith in let ez : z ≡ c = ground arith in rw (← ex, ← ey, ← ez) h

  deco_at-Acts :
      (z y x : ℕ)
      → z < gen_edge
      → y < gen_edge
      → x < gen_edge
      → Acts (is_cell x y z) decorated (deco_at z y x)
  unfolding deco_at
  deco_at-Acts z y x hz hy hx chunk whole = elim (Bool-cases (picks x y z (chunk_at chunk x y z))) [
    | inl e ↦ rw e (
      length-set chunk (gen_index x y z) _ ∙ whole,
      λ a b c ha hb hc.
          chunk_at-chunk_set chunk x y z flower a b c whole hx hy hz ha hb hc
          ∙ elim (Bool-cases (is_cell x y z a b c)) [
            | inl same ↦ rw (same, moved chunk x y z a b c true same e) refl
            | inr other ↦ rw other refl
          ],
    )
    | inr e ↦ rw e (
      whole,
      λ a b c ha hb hc. elim (Bool-cases (is_cell x y z a b c)) [
        | inl same ↦ rw (same, moved chunk x y z a b c false same e) refl
        | inr other ↦ rw other refl
      ],
    )
  ]

  deco_row-Acts :
      (z y : ℕ)
      → z < gen_edge
      → y < gen_edge
      → Acts (in_row z y gen_edge) decorated (for_below gen_edge (deco_at z y))
  deco_row-Acts z y hz hy =
      Acts-for_below decorated (in_row z y) (λ x. is_cell x y z) _ gen_edge (λ a b c. ground arith)
        (λ i a b c hi ha hb hc. ground arith) (λ i a b c h. ground arith)
        (λ x hx. deco_at-Acts z y x hz hy hx)

  deco_slice-Acts :
      (z : ℕ)
      → z < gen_edge
      → Acts
          (in_rows z gen_edge)
          decorated
          (for_below gen_edge (λ y. for_below gen_edge (deco_at z y)))
  deco_slice-Acts z hz =
      Acts-for_below decorated (in_rows z) (λ y. in_row z y gen_edge) _ gen_edge
        (λ a b c. ground arith) (λ i a b c hi ha hb hc. ground arith) (λ i a b c h. ground arith)
        (λ y hy. deco_row-Acts z y hz hy)

  decorate_chunk-Acts : Acts (in_slices gen_edge) decorated (decorate_chunk seed cp)
  unfolding decorate_chunk deco_at
  decorate_chunk-Acts =
      Acts-for_below decorated in_slices (λ z. in_rows z gen_edge) _ gen_edge
        (λ a b c. ground arith) (λ i a b c hi ha hb hc. ground arith) (λ i a b c h. ground arith)
        (λ z hz. deco_slice-Acts z hz)

  -- The decoration stage turns the grass cells that the coordinate hash picks into flowers, and
  -- changes no other cell.
  pub chunk_at-decorate_chunk :
      (chunk : GenChunk) (x y z : ℕ)
      → IsChunk chunk
      → x < gen_edge
      → y < gen_edge
      → z < gen_edge
      → chunk_at (decorate_chunk seed cp chunk) x y z ≡ decorated x y z (chunk_at chunk x y z)
  chunk_at-decorate_chunk chunk x y z whole hx hy hz =
      (decorate_chunk-Acts chunk whole).1 x y z hx hy hz ∙ rw (lt→ltb z gen_edge hz) refl

  pub decorate_chunk-IsChunk :
      (chunk : GenChunk) → IsChunk chunk → IsChunk (decorate_chunk seed cp chunk)
  decorate_chunk-IsChunk chunk whole = (decorate_chunk-Acts chunk whole).0
