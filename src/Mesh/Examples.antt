-- ===== src/Mesh/Examples.antt =====
-- A chunk of stone with one corner of air, and runs of the mesher's parts.
use voxel.Base.{
  ℕ, ◌≡◌, refl, Bool, true, not, some, List, [], ◌∷◌, arith, ◌==◌, get_or, replicate,
  length-replicate, get_or-replicate,
}
use voxel.Base.Loops.{for_below}
use voxel.Blob.{CellValue, UnpackedChunk, probe}
use voxel.Jobs.{Scheduler}
use voxel.Jobs.Writes.{Splits, in_some, lengths}
use voxel.Mesh.{greedy_mesh, naive_mesh}
use voxel.Mesh.CellGrid.{grid_at, grid_opaque}
use voxel.Mesh.CellGrid.Slots.{IsMeshable, Names}
use voxel.Mesh.CellGrid.Build.{build_grid-IsMeshable, build_grid-Names}
use voxel.Mesh.Emitter.{empty_mesh, quad, corners, corner}
use voxel.Mesh.Mask.{no_face, on_axes}
use voxel.Mesh.Oracle.{Alike, greedy_mesh-Alike-naive_mesh}
use voxel.Mesh.Parallel.{
  no_neighbors, mesh_chunks_serial, mesh_chunks_parallel, mesh_chunks_parallel-mesh_chunks_serial,
}
use voxel.Mesh.Sweep.{
  naive_slice, greedy_slice, greedy_cell, naive_cell, extent_v, extent_u, extend, row_ok, all_below,
  free_face, claim,
}
use voxel.Mesh.Sweep.Cover.{PaintsSlice}
use voxel.Mesh.Sweep.Cover.Greedy.{greedy_slice-PaintsSlice}
use voxel.Mesh.Vertex.{pack_vertex, face_cast, Reads, pack_vertex-Reads}
use voxel.Morton.{morton_encode}

abbrev air : CellValue
air = record { content = 0; state = 0 }

abbrev stone : CellValue
stone = record { content = 1; state = 0 }

abbrev solid : CellValue → Bool
solid c = not (c.content == 0)

abbrev block : UnpackedChunk
block = record { log2_extent = 4; palette = air ∷ stone ∷ []; cells = air ∷ replicate 4095 stone }

-- Two faces of slot 7 side by side, the one after them covered.
abbrev strip : List ℕ
strip = 7 ∷ 7 ∷ no_face ∷ 7 ∷ replicate 252 no_face

greedy_slice_runs : (greedy_slice 1 true 4 strip empty_mesh).quad_count ≡ 2
unfolding greedy_slice greedy_cell for_below extent_v extent_u extend row_ok all_below free_face
    claim quad corners corner on_axes
greedy_slice_runs = refl

naive_slice_runs : (naive_slice 1 true 4 strip empty_mesh).quad_count ≡ 3
unfolding naive_slice naive_cell for_below quad corners corner
naive_slice_runs = refl

greedy_slice-PaintsSlice_example :
    PaintsSlice 1 true 4 strip empty_mesh (greedy_slice 1 true 4 strip empty_mesh)
greedy_slice-PaintsSlice_example =
    greedy_slice-PaintsSlice 1 true 4 strip empty_mesh (omega arith) (omega arith) (refl, refl)

greedy_mesh_example :
    Alike (greedy_mesh block no_neighbors solid) (naive_mesh block no_neighbors solid)
greedy_mesh_example = greedy_mesh-Alike-naive_mesh block no_neighbors solid

pack_vertex_example : Reads (pack_vertex 16 3 0 (face_cast 5) 70_000) 16 3 0 (face_cast 5) 70_000
pack_vertex_example =
    pack_vertex-Reads 16 3 0 5 70_000 (omega arith) (omega arith) (omega arith) (omega arith)

abbrev in_order : Scheduler
in_order count at_least = record { start = 0; end = count } ∷ []

in_order-Splits : (count at_least : ℕ) → Splits (in_order count at_least) count
unfolding in_some lengths
in_order-Splits count at_least = (λ i hi. ground arith, omega arith)

mesh_chunks_parallel_example :
    mesh_chunks_parallel (block ∷ block ∷ []) solid in_order
    ≡ some (mesh_chunks_serial (block ∷ block ∷ []) solid)
mesh_chunks_parallel_example =
    mesh_chunks_parallel-mesh_chunks_serial (block ∷ block ∷ []) solid in_order
      (λ at_least h. in_order-Splits 2 at_least)

abbrev air_block : UnpackedChunk
air_block = record { log2_extent = 4; palette = stone ∷ air ∷ []; cells = replicate 4096 air }

air_block-IsMeshable : IsMeshable air_block
unfolding probe
air_block-IsMeshable = (
  refl,
  length-replicate 4096 air,
  omega arith,
  λ m hm. rw (get_or-replicate 4096 m air) (omega arith),
)

build_grid_example :
    Names air_block.palette
      (grid_at (build_grid-IsMeshable air_block solid air_block-IsMeshable).0 1 2 3)
      (get_or air_block.cells (morton_encode (record { x = 1; y = 2; z = 3 })) air)
    × (grid_opaque (build_grid-IsMeshable air_block solid air_block-IsMeshable).0 1 2 3
        ≡ solid (get_or air_block.cells (morton_encode (record { x = 1; y = 2; z = 3 })) air))
build_grid_example =
    build_grid-Names air_block solid (build_grid-IsMeshable air_block solid air_block-IsMeshable).0
      (record { x = 1; y = 2; z = 3 })
      (build_grid-IsMeshable air_block solid air_block-IsMeshable).1
      (omega arith, omega arith, omega arith)
