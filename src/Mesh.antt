-- ===== src/Mesh.antt =====
-- src/mesh/greedy.{hpp,cpp}: the greedy chunk mesher and its per-face oracle. The opacity predicate
-- is an argument of every function that asks it.
pub mod Vertex
pub mod CellGrid
pub mod Mask
pub mod Emitter
pub mod Sweep
pub mod Oracle
pub mod Parallel
mod Examples
use voxel.Base.{ℕ, ◌+◌, Bool, true, false, none, some, if◌then◌else◌}
use voxel.Base.Loops.{for_below}
use voxel.Blob.{CellValue, UnpackedChunk}
use voxel.Mesh.Emitter.{ChunkMesh, empty_mesh}
use voxel.Mesh.CellGrid.{Grid, build_grid, edge}
use voxel.Mesh.Mask.{NeighborViews, build_mask}
use voxel.Mesh.Sweep.{greedy_slice, naive_slice}

module _ (grid : Grid) (neighbors : NeighborViews) (is_opaque : CellValue → Bool)
    (merge : Bool) where
  -- The body of the three loops.
  unfoldable pub mesh_slice : ℕ → Bool → ℕ → ChunkMesh → ChunkMesh
  mesh_slice d positive slice mesh =
      let mask = build_mask grid neighbors is_opaque d positive slice in
      let p = if positive then slice + 1 else slice in
      if merge then greedy_slice d positive p mask mesh else naive_slice d positive p mask mesh

  unfoldable pub mesh_side : ℕ → Bool → ChunkMesh → ChunkMesh
  mesh_side d positive = for_below edge (mesh_slice d positive)

  -- `for (const bool positive : {true, false})` inside the loop over the axes.
  unfoldable pub mesh_sides : ChunkMesh → ChunkMesh
  mesh_sides = for_below 3 (λ d mesh. mesh_side d false (mesh_side d true mesh))

unfoldable pub mesh_impl : UnpackedChunk → NeighborViews → (CellValue → Bool) → Bool → ChunkMesh
mesh_impl chunk neighbors is_opaque merge = elim (build_grid chunk is_opaque) [
  | none ↦ empty_mesh
  | some grid ↦ mesh_sides grid neighbors is_opaque merge empty_mesh
]

unfoldable pub greedy_mesh : UnpackedChunk → NeighborViews → (CellValue → Bool) → ChunkMesh
greedy_mesh chunk neighbors is_opaque = mesh_impl chunk neighbors is_opaque true

unfoldable pub naive_mesh : UnpackedChunk → NeighborViews → (CellValue → Bool) → ChunkMesh
naive_mesh chunk neighbors is_opaque = mesh_impl chunk neighbors is_opaque false
