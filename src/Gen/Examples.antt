-- ===== src/Gen/Examples.antt =====
-- Runs of the generator's functions, and its theorems at a chunk on the edge of the world.
use voxel.Base.{
  ℕ, zero, suc, ◌+◌, ◌-◌, ◌^◌, ◌<◌, ◌≡◌, refl, [], arith, get_or, replicate, All, length-replicate,
}
use voxel.Gen.Chunk.{GenChunk, GenChunkPos, blank_chunk, gather_anchors, generate_chunk}
use voxel.Gen.Chunk.Acts.{IsChunk}
use voxel.Gen.Chunk.Pure.{generate_chunk_pure, blank_chunk-IsChunk}
use voxel.Gen.Chunk.Window.{gather_anchors_wider}
use voxel.Gen.Hash.{surface_height, splitmix64, hash_coords}
use voxel.Gen.Region.{region_index, region_at, generate_region_gather, standard_seed, blank_region}
use voxel.Gen.Region.Gather.{IsRegion, alone, region_at-generate_region_gather}
use voxel.Gen.Structure.{for_each_structure_cell, reach_xz}
use voxel.Gen.Structure.Reach.{InReach, collect, for_each_structure_cell-InReach}

-- -2 and the chunk west of the origin.
abbrev minus_two : ℕ
minus_two = 2 ^ 32 - 2

abbrev west : GenChunkPos
west = record { cx = 2 ^ 32 - 1; cy = 0; cz = 0 }

surface_height_runs : surface_height standard_seed minus_two 5 ≡ 12
unfolding surface_height hash_coords splitmix64
surface_height_runs = refl

structure_example :
    All
      (λ c. InReach standard_seed minus_two 5 c.x c.y c.z)
      (for_each_structure_cell standard_seed minus_two 5 collect [])
structure_example =
    for_each_structure_cell-InReach standard_seed minus_two 5 (omega arith) (omega arith)

wider_example :
    gather_anchors (30 + reach_xz) standard_seed west blank_chunk
    ≡ gather_anchors reach_xz standard_seed west blank_chunk
wider_example = gather_anchors_wider standard_seed 30 west (omega arith) blank_chunk

abbrev stone_chunk : GenChunk
stone_chunk = replicate 4096 1

pure_example :
    generate_chunk standard_seed west stone_chunk ≡ generate_chunk standard_seed west blank_chunk
pure_example =
    generate_chunk_pure standard_seed west stone_chunk blank_chunk (length-replicate {A = ℕ} 4096 1)
      blank_chunk-IsChunk

whole_at : (n i : ℕ) → i < n → IsChunk (get_or (replicate n blank_chunk) i [])
whole_at zero i h = absurd (omega arith)
whole_at (suc n) zero h = blank_chunk-IsChunk
whole_at (suc n) (suc i) h = whole_at n i (omega arith)

blank_region-IsRegion : IsRegion blank_region
unfolding blank_region region_at
blank_region-IsRegion = (
  length-replicate 256 blank_chunk,
  λ x y z hx hy hz. whole_at 256 (region_index x y z) (omega arith),
)

gather_example :
    region_at (generate_region_gather standard_seed blank_region) 7 3 0 ≡ alone standard_seed 7 3 0
gather_example =
    region_at-generate_region_gather standard_seed blank_region 7 3 0 blank_region-IsRegion
      (omega arith) (omega arith) (omega arith)
