-- ===== src/Mesh/Parallel.antt =====
-- src/mesh/parallel.cpp: a batch of chunks, serially and on the job system. Chunks mesh without
-- neighbours here.
use voxel.Base.{
  ℕ, ◌<◌, ◌≡◌, Bool, Option, some, List, [], length, get_or, set, replicate, length-replicate,
}
use voxel.Base.Loops.{for_below}
use voxel.Blob.{CellValue, UnpackedChunk}
use voxel.Jobs.{Scheduler, parallel_for}
use voxel.Jobs.Writes.{Splits, parallel_for-write}
use voxel.Mesh.{greedy_mesh}
use voxel.Mesh.Emitter.{ChunkMesh, empty_mesh}
use voxel.Mesh.Mask.{NeighborViews}

abbrev pub no_neighbors : NeighborViews
no_neighbors = record { neg_x = []; pos_x = []; neg_y = []; pos_y = []; neg_z = []; pos_z = [] }

-- Past the end of the span; the loops stay inside of it.
abbrev no_chunk : UnpackedChunk
no_chunk = record { log2_extent = 0; palette = []; cells = [] }

-- The body of both loops: `out[i] = greedyMesh(chunks[i], none, isOpaque)`.
abbrev pub mesh_chunk :
    List UnpackedChunk → (CellValue → Bool) → ℕ → List ChunkMesh → List ChunkMesh
mesh_chunk chunks is_opaque i out =
    set out i (greedy_mesh (get_or chunks i no_chunk) no_neighbors is_opaque)

unfoldable pub mesh_chunks_serial : List UnpackedChunk → (CellValue → Bool) → List ChunkMesh
mesh_chunks_serial chunks is_opaque =
    for_below (length chunks) (mesh_chunk chunks is_opaque) (replicate (length chunks) empty_mesh)

unfoldable pub mesh_chunks_parallel :
    List UnpackedChunk → (CellValue → Bool) → Scheduler → Option (List ChunkMesh)
mesh_chunks_parallel chunks is_opaque scheduler =
    parallel_for scheduler (length chunks) 1 (mesh_chunk chunks is_opaque)
      (replicate (length chunks) empty_mesh)

-- With a scheduler whose ranges hold every index once, meshing on the job system returns, and its
-- meshes equal those of the serial loop, in whatever order the ranges complete.
pub mesh_chunks_parallel-mesh_chunks_serial :
    (chunks : List UnpackedChunk) (is_opaque : CellValue → Bool) (scheduler : Scheduler)
    → ((at_least : ℕ) → 0 < at_least → Splits (scheduler (length chunks) at_least) (length chunks))
    → mesh_chunks_parallel chunks is_opaque scheduler ≡ some (mesh_chunks_serial chunks is_opaque)
unfolding mesh_chunks_parallel mesh_chunks_serial
mesh_chunks_parallel-mesh_chunks_serial chunks is_opaque scheduler splits =
    parallel_for-write (λ i. greedy_mesh (get_or chunks i no_chunk) no_neighbors is_opaque)
      empty_mesh scheduler (length chunks) 1 (replicate (length chunks) empty_mesh) splits
      (length-replicate (length chunks) empty_mesh)
