-- ===== src/Mesh/Oracle.antt =====
-- The greedy mesh against the per-face oracle.
use voxel.Base.{
  ℕ, ◌+◌, ◌<◌, ◌≡◌, refl, inl, inr, Bool, true, false, arith, if◌then◌else◌, Option-cases,
}
use voxel.Base.Loops.{for_below_rel}
use voxel.Blob.{CellValue, UnpackedChunk}
use voxel.Mesh.{mesh_slice, mesh_side, mesh_sides, mesh_impl, greedy_mesh, naive_mesh}
use voxel.Mesh.Emitter.{ChunkMesh, empty_mesh}
use voxel.Mesh.Emitter.Painted.{UnitFace, painted, IsWhole}
use voxel.Mesh.CellGrid.{Grid, build_grid, edge}
use voxel.Mesh.Mask.{NeighborViews, build_mask}
use voxel.Mesh.Sweep.Cover.Greedy.{greedy_slice-PaintsSlice}
use voxel.Mesh.Sweep.Cover.Naive.{naive_slice-PaintsSlice}

-- Two whole meshes that paint the same unit faces with the same slots.
abbrev pub Alike : ChunkMesh → ChunkMesh → Type 0
Alike m n =
    IsWhole m × IsWhole n × ((f : UnitFace) → f.a < edge → f.b < edge → painted m f ≡ painted n f)

plane_small :
    (positive : Bool) (slice : ℕ) → slice < edge → (if positive then slice + 1 else slice) < 17
plane_small true slice h = omega arith
plane_small false slice h = omega arith

module _ (grid : Grid) (nb : NeighborViews) (is_opaque : CellValue → Bool) where
  mesh_slice-Alike :
      (d : ℕ) (positive : Bool) (slice : ℕ) (m n : ChunkMesh)
      → d < 3
      → slice < edge
      → Alike m n
      → Alike
          (mesh_slice grid nb is_opaque true d positive slice m)
          (mesh_slice grid nb is_opaque false d positive slice n)
  unfolding mesh_slice
  mesh_slice-Alike d positive slice m n hd hs (wm, wn, same) =
      let p = if positive then slice + 1 else slice in
      let mask = build_mask grid nb is_opaque d positive slice in
      let hp = plane_small positive slice hs in
      let (wg, g) = greedy_slice-PaintsSlice d positive p mask m hd hp wm in
      let (wv, v) = naive_slice-PaintsSlice d positive p mask n hd hp wn in
      (wg, wv, λ f ha hb. rw (g f ha hb, v f ha hb, same f ha hb) refl)

  mesh_side-Alike :
      (d : ℕ) (positive : Bool) (m n : ChunkMesh)
      → d < 3
      → Alike m n
      → Alike
          (mesh_side grid nb is_opaque true d positive m)
          (mesh_side grid nb is_opaque false d positive n)
  unfolding mesh_side
  mesh_side-Alike d positive m n hd =
      for_below_rel Alike _ _ edge (λ i s t hi. mesh_slice-Alike d positive i s t hd hi) m n

  mesh_sides-Alike :
      (m n : ChunkMesh)
      → Alike m n
      → Alike (mesh_sides grid nb is_opaque true m) (mesh_sides grid nb is_opaque false n)
  unfolding mesh_sides
  mesh_sides-Alike =
      for_below_rel Alike _ _ 3
        (λ d s t hd h. mesh_side-Alike d false _ _ hd (mesh_side-Alike d true s t hd h))

-- For every chunk, neighbours and opacity predicate, the greedy mesh and the mesh of the per-face
-- oracle are whole (four vertices and six indices for each quad), and read back from their packed
-- vertices they paint the same unit faces with the same slots.
pub greedy_mesh-Alike-naive_mesh :
    (chunk : UnpackedChunk) (nb : NeighborViews) (is_opaque : CellValue → Bool)
    → Alike (greedy_mesh chunk nb is_opaque) (naive_mesh chunk nb is_opaque)
unfolding greedy_mesh naive_mesh mesh_impl
greedy_mesh-Alike-naive_mesh chunk nb is_opaque = elim (Option-cases (build_grid chunk is_opaque)) [
  | inl e ↦ rw (greedy_mesh, naive_mesh, mesh_impl, e) ((refl, refl), (refl, refl), λ f ha hb. refl)
  | inr (grid, e) ↦
      rw (greedy_mesh, naive_mesh, mesh_impl, e)
        (mesh_sides-Alike grid nb is_opaque empty_mesh empty_mesh
          ((refl, refl), (refl, refl), λ f ha hb. refl))
]
