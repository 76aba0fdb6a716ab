-- ===== src/Gen/Chunk/Contents.antt =====
-- Every cell of a generated chunk holds one of the seven contents.
use voxel.Base.{
  ℕ, zero, suc, ◌+◌, ◌<◌, inl, inr, Bool, true, false, ◌&&◌, arith, ◌==◌, if◌then◌else◌, Bool-cases,
  set, replicate, All, All-set,
}
use voxel.Base.Int32.{IsInt, int_add, int_sub, int_lt}
use voxel.Base.Loops.{for_below_inv}
use voxel.Gen.Chunk.{
  GenChunk, GenChunkPos, gen_edge, gen_index, blank_chunk, base_of, on_edge, terrain_content,
  terrain_fill_chunk, write_cell_into_chunk, gather_anchors, decorate_chunk, generate_chunk,
}
use voxel.Gen.Hash.{is_anchor}
use voxel.Gen.Structure.{for_each_structure_cell, reach_xz, air, flower}
use voxel.Gen.Structure.Reach.{IsContent, for_each_structure_cell_inv}

abbrev pub IsFilled : GenChunk → Type 0
IsFilled = All IsContent

terrain_content-IsContent : (h wy : ℕ) → IsContent (terrain_content h wy)
unfolding terrain_content
terrain_content-IsContent h wy = pick (int_lt wy (int_sub h 3)) (int_lt wy h) (wy == h)
  where
    pick : (p q r : Bool) → (if p then 1 else if q then 2 else if r then 3 else 0) < 7
    pick true q r = omega arith
    pick false true r = omega arith
    pick false false true = omega arith
    pick false false false = omega arith

terrain_fill_chunk-IsFilled :
    (seed : ℕ) (cp : GenChunkPos) (out : GenChunk)
    → IsFilled out
    → IsFilled (terrain_fill_chunk seed cp out)
unfolding terrain_fill_chunk
terrain_fill_chunk-IsFilled seed cp out =
    for_below_inv (λ _. IsFilled) _ gen_edge
      (λ z s hz.
        for_below_inv (λ _. IsFilled) _ gen_edge
          (λ x t hx.
            for_below_inv (λ _. IsFilled) _ gen_edge
              (λ y u hy h.
                All-set IsContent u (gen_index x y z) _ h (terrain_content-IsContent _ _))
              t)
          s)
      out

-- A write under a test.
set-IsFilled :
    (p : Bool) (chunk : GenChunk) (i c : ℕ)
    → IsFilled chunk
    → IsContent c
    → IsFilled (if p then set chunk i c else chunk)
set-IsFilled true chunk i c h small = All-set IsContent chunk i c h small
set-IsFilled false chunk i c h small = h

structure-IsFilled :
    (seed wx wz bx by bz : ℕ) (chunk : GenChunk)
    → IsInt wx
    → IsInt wz
    → IsFilled chunk
    → IsFilled (for_each_structure_cell seed wx wz (write_cell_into_chunk bx by bz) chunk)
unfolding write_cell_into_chunk
structure-IsFilled seed wx wz bx by bz chunk hx hz =
    for_each_structure_cell_inv IsFilled seed wx wz (write_cell_into_chunk bx by bz) hx hz
      (λ x y z c s near small h.
        set-IsFilled (on_edge (int_sub x bx) && (on_edge (int_sub y by) && on_edge (int_sub z bz)))
          s _ c h small)
      chunk

gather_anchors-IsFilled :
    (margin seed : ℕ) (cp : GenChunkPos) (chunk : GenChunk)
    → IsFilled chunk
    → IsFilled (gather_anchors margin seed cp chunk)
unfolding gather_anchors
gather_anchors-IsFilled margin seed cp =
    for_below_inv (λ _. IsFilled) _ (margin + gen_edge + margin)
      (λ j s hj.
        for_below_inv (λ _. IsFilled) _ (margin + gen_edge + margin)
          (λ i t hi h.
            elim (Bool-cases (
              is_anchor seed (int_add (int_sub (base_of cp.cx) margin) i)
                (int_add (int_sub (base_of cp.cz) margin) j))) [
                  | inl e ↦ rw e (structure-IsFilled seed _ _ _ _ _ t (omega arith) (omega arith) h)
                  | inr e ↦ rw e h
                ])
          s)

decorate_chunk-IsFilled :
    (seed : ℕ) (cp : GenChunkPos) (chunk : GenChunk)
    → IsFilled chunk
    → IsFilled (decorate_chunk seed cp chunk)
unfolding decorate_chunk
decorate_chunk-IsFilled seed cp chunk =
    for_below_inv (λ _. IsFilled) _ gen_edge
      (λ z s hz.
        for_below_inv (λ _. IsFilled) _ gen_edge
          (λ y t hy.
            for_below_inv (λ _. IsFilled) _ gen_edge
              (λ x u hx h. set-IsFilled _ u (gen_index x y z) flower h (omega arith)) t)
          s)
      chunk

blank_chunk-IsFilled : IsFilled blank_chunk
unfolding blank_chunk
blank_chunk-IsFilled = all_air 4096
  where
    all_air : (n : ℕ) → All IsContent (replicate n air)
    all_air zero = tt
    all_air (suc n) = (omega arith, all_air n)

-- Every cell of a chunk that is generated into a new buffer holds one of the seven contents.
pub generate_chunk-IsFilled :
    (seed : ℕ) (cp : GenChunkPos) → IsFilled (generate_chunk seed cp blank_chunk)
unfolding generate_chunk
generate_chunk-IsFilled seed cp = decorate_chunk-IsFilled seed cp _ (
    gather_anchors-IsFilled reach_xz seed cp _
      (terrain_fill_chunk-IsFilled seed cp blank_chunk blank_chunk-IsFilled))
