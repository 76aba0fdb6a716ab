-- ===== src/Gen/Chunk/Stages.antt =====
-- What the terrain stage makes of each cell.
use voxel.Base.{
  ℕ, ◌<◌, ◌≡◌, refl, ◌∙◌, inl, inr, Bool, ◌&&◌, arith, ltb, ◌==◌, lt→ltb, Bool-cases, length-set,
}
use voxel.Base.Int32.{int_add}
use voxel.Base.Loops.{for_below}
use voxel.Gen.Chunk.{
  GenChunk, GenChunkPos, gen_edge, gen_index, chunk_at, chunk_set, base_of, terrain_content,
  terrain_fill_chunk,
}
use voxel.Gen.Chunk.Acts.{IsChunk, Acts, is_cell, chunk_at-chunk_set, Acts-for_below}
use voxel.Gen.Hash.{surface_height}

-- The cells of the loops over z and x, or over z and y, as far as they have come.
abbrev pub in_slices : ℕ → ℕ → ℕ → ℕ → Bool
in_slices k x y z = ltb z k

abbrev in_columns : ℕ → ℕ → ℕ → ℕ → ℕ → Bool
in_columns c k x y z = c == z && ltb x k

abbrev in_column : ℕ → ℕ → ℕ → ℕ → ℕ → ℕ → Bool
in_column c a k x y z = c == z && (a == x && ltb y k)

abbrev pub in_rows : ℕ → ℕ → ℕ → ℕ → ℕ → Bool
in_rows c k x y z = c == z && ltb y k

abbrev pub in_row : ℕ → ℕ → ℕ → ℕ → ℕ → ℕ → Bool
in_row c b k x y z = c == z && (b == y && ltb x k)

-- The world coordinates of a cell.
abbrev pub world_x : GenChunkPos → ℕ → ℕ
world_x cp x = int_add (base_of cp.cx) x

abbrev pub world_y : GenChunkPos → ℕ → ℕ
world_y cp y = int_add (base_of cp.cy) y

abbrev pub world_z : GenChunkPos → ℕ → ℕ
world_z cp z = int_add (base_of cp.cz) z

module _ (seed : ℕ) (cp : GenChunkPos) where
  -- The terrain of a cell: a function of the seed and its world position.
  abbrev pub terrain_at : ℕ → ℕ → ℕ → ℕ
  terrain_at x y z =
      terrain_content (surface_height seed (world_x cp x) (world_z cp z)) (world_y cp y)

  terrain_cell-Acts :
      (z x y : ℕ)
      → z < gen_edge
      → x < gen_edge
      → y < gen_edge
      → Acts
          (is_cell x y z)
          (λ a b c old. terrain_at a b c)
          (λ out.
            chunk_set out x y z
              (terrain_content (surface_height seed (world_x cp x) (world_z cp z)) (world_y cp y)))
  terrain_cell-Acts z x y hz hx hy chunk whole = (
    length-set chunk (gen_index x y z) _ ∙ whole,
    λ a b c ha hb hc.
        chunk_at-chunk_set chunk x y z (terrain_at x y z) a b c whole hx hy hz ha hb hc
        ∙ elim (Bool-cases (is_cell x y z a b c)) [
          | inl e ↦
              let ex : x ≡ a = ground arith in
              let ey : y ≡ b = ground arith in
              let ez : z ≡ c = ground arith in rw (e, ex, ey, ez) refl
          | inr e ↦ rw e refl
        ],
  )

  terrain_column-Acts :
      (z x : ℕ)
      → z < gen_edge
      → x < gen_edge
      → Acts
          (in_column z x gen_edge)
          (λ a b c old. terrain_at a b c)
          (for_below gen_edge (λ y out.
            chunk_set out x y z
              (terrain_content (surface_height seed (world_x cp x) (world_z cp z)) (world_y cp y))))
  terrain_column-Acts z x hz hx =
      Acts-for_below (λ a b c old. terrain_at a b c) (in_column z x) (λ y. is_cell x y z) _ gen_edge
        (λ a b c. ground arith) (λ i a b c hi ha hb hc. ground arith) (λ i a b c h. ground arith)
        (λ y hy. terrain_cell-Acts z x y hz hx hy)

  terrain_slice-Acts :
      (z : ℕ)
      → z < gen_edge
      → Acts
          (in_columns z gen_edge)
          (λ a b c old. terrain_at a b c)
          (for_below gen_edge (λ x. for_below gen_edge (λ y out.
            chunk_set out x y z (
              terrain_content (surface_height seed (world_x cp x) (world_z cp z)) (world_y cp y)))))
  terrain_slice-Acts z hz =
      Acts-for_below (λ a b c old. terrain_at a b c) (in_columns z) (λ x. in_column z x gen_edge) _
        gen_edge (λ a b c. ground arith) (λ i a b c hi ha hb hc. ground arith)
        (λ i a b c h. ground arith) (λ x hx. terrain_column-Acts z x hz hx)

  terrain_fill_chunk-Acts :
      Acts (in_slices gen_edge) (λ a b c old. terrain_at a b c) (terrain_fill_chunk seed cp)
  unfolding terrain_fill_chunk
  terrain_fill_chunk-Acts =
      Acts-for_below (λ a b c old. terrain_at a b c) in_slices (λ z. in_columns z gen_edge) _
        gen_edge (λ a b c. ground arith) (λ i a b c hi ha hb hc. ground arith)
        (λ i a b c h. ground arith) (λ z hz. terrain_slice-Acts z hz)

  -- The terrain stage gives every cell the content that the height of its column decides, whatever
  -- the chunk held before.
  pub chunk_at-terrain_fill_chunk :
      (out : GenChunk) (x y z : ℕ)
      → IsChunk out
      → x < gen_edge
      → y < gen_edge
      → z < gen_edge
      → chunk_at (terrain_fill_chunk seed cp out) x y z
        ≡ terrain_content (surface_height seed (world_x cp x) (world_z cp z)) (world_y cp y)
  chunk_at-terrain_fill_chunk out x y z whole hx hy hz =
      (terrain_fill_chunk-Acts out whole).1 x y z hx hy hz ∙ rw (lt→ltb z gen_edge hz) refl

  pub terrain_fill_chunk-IsChunk :
      (out : GenChunk) → IsChunk out → IsChunk (terrain_fill_chunk seed cp out)
  terrain_fill_chunk-IsChunk out whole = (terrain_fill_chunk-Acts out whole).0
