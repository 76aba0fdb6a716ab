-- ===== src/Gen/Chunk/Pure.antt =====
-- A generated chunk does not depend on the buffer that it is generated into.
use voxel.Base.{
  ℕ, ◌+◌, ◌/◌, ◌%◌, ◌<◌, ◌≡◌, refl, sym, ◌∙◌, subst, inl, inr, Bool, true, false, ◌&&◌, arith,
  if◌then◌else◌, Bool-cases, get_or, set, length-set, length-replicate, eq_of_get_or,
}
use voxel.Base.Int32.{IsInt, int_add, int_sub}
use voxel.Base.Loops.{for_below_inv}
use voxel.Gen.Hash.{is_anchor}
use voxel.Gen.Structure.Reach.{for_each_structure_cell_inv}
use voxel.Gen.Chunk.{
  GenChunk, GenChunkPos, gen_edge, gen_index, chunk_at, air, terrain_fill_chunk,
  write_cell_into_chunk, gather_anchors, generate_chunk, blank_chunk, base_of, on_edge,
}
use voxel.Gen.Chunk.Acts.{IsChunk}
use voxel.Gen.Chunk.Decoration.{decorate_chunk-IsChunk}
use voxel.Gen.Chunk.Stages.{chunk_at-terrain_fill_chunk, terrain_fill_chunk-IsChunk}
use voxel.Gen.Structure.{for_each_structure_cell, reach_xz}

-- Chunks that agree at every cell are equal.
pub eq_of_chunk_at :
    (c e : GenChunk)
    → IsChunk c
    → IsChunk e
    → ((x y z : ℕ)
        → x < gen_edge
        → y < gen_edge
        → z < gen_edge
        → chunk_at c x y z ≡ chunk_at e x y z)
    → c ≡ e
eq_of_chunk_at c e hc he agree = eq_of_get_or c e air (hc ∙ sym he) (λ i hi.
    let split : gen_index (i % 16) (i / 16 % 16) (i / 256) ≡ i = omega arith in
    subst (λ j. get_or c j air ≡ get_or e j air) split
      (agree (i % 16) (i / 16 % 16) (i / 256) (omega arith) (omega arith) (omega arith)))

-- Generating a chunk gives the same cells whatever its buffer held before: they are a function of the
-- seed and the position.
pub generate_chunk_pure :
    (seed : ℕ) (cp : GenChunkPos) (out other : GenChunk)
    → IsChunk out
    → IsChunk other
    → generate_chunk seed cp out ≡ generate_chunk seed cp other
unfolding generate_chunk
generate_chunk_pure seed cp out other ho hp =
    let same : terrain_fill_chunk seed cp out ≡ terrain_fill_chunk seed cp other =
      eq_of_chunk_at _ _ (terrain_fill_chunk-IsChunk seed cp out ho)
        (terrain_fill_chunk-IsChunk seed cp other hp)
        (λ x y z hx hy hz.
          chunk_at-terrain_fill_chunk seed cp out x y z ho hx hy hz
          ∙ sym (chunk_at-terrain_fill_chunk seed cp other x y z hp hx hy hz)) in
    rw same refl

write-IsChunk :
    (bx by bz x y z c : ℕ) (chunk : GenChunk)
    → IsChunk chunk
    → IsChunk (write_cell_into_chunk bx by bz x y z c chunk)
unfolding write_cell_into_chunk
write-IsChunk bx by bz x y z c chunk whole =
    either (on_edge (int_sub x bx) && (on_edge (int_sub y by) && on_edge (int_sub z bz))) _
  where
    either : (p : Bool) (i : ℕ) → IsChunk (if p then set chunk i c else chunk)
    either true i = length-set chunk i c ∙ whole
    either false i = whole

structure-IsChunk :
    (seed wx wz bx by bz : ℕ) (chunk : GenChunk)
    → IsInt wx
    → IsInt wz
    → IsChunk chunk
    → IsChunk (for_each_structure_cell seed wx wz (write_cell_into_chunk bx by bz) chunk)
structure-IsChunk seed wx wz bx by bz chunk hx hz =
    for_each_structure_cell_inv IsChunk seed wx wz (write_cell_into_chunk bx by bz) hx hz
      (λ x y z c s near small. write-IsChunk bx by bz x y z c s) chunk

gather_anchors-IsChunk :
    (margin seed : ℕ) (cp : GenChunkPos) (chunk : GenChunk)
    → IsChunk chunk
    → IsChunk (gather_anchors margin seed cp chunk)
unfolding gather_anchors
gather_anchors-IsChunk margin seed cp =
    for_below_inv (λ _. IsChunk) _ (margin + gen_edge + margin)
      (λ j s hj.
        for_below_inv (λ _. IsChunk) _ (margin + gen_edge + margin)
          (λ i t hi whole.
            elim (Bool-cases (
              is_anchor seed (int_add (int_sub (base_of cp.cx) margin) i)
                (int_add (int_sub (base_of cp.cz) margin) j))) [
                  | inl e ↦
                      rw e (structure-IsChunk seed _ _ _ _ _ t (omega arith) (omega arith) whole)
                  | inr e ↦ rw e whole
                ])
          s)

-- A generated chunk has its 4096 cells.
pub generate_chunk-IsChunk :
    (seed : ℕ) (cp : GenChunkPos) (out : GenChunk)
    → IsChunk out
    → IsChunk (generate_chunk seed cp out)
unfolding generate_chunk
generate_chunk-IsChunk seed cp out whole =
    decorate_chunk-IsChunk seed cp _
      (gather_anchors-IsChunk reach_xz seed cp _ (terrain_fill_chunk-IsChunk seed cp out whole))

pub blank_chunk-IsChunk : IsChunk blank_chunk
unfolding blank_chunk
blank_chunk-IsChunk = length-replicate {A = ℕ} 4096 air
