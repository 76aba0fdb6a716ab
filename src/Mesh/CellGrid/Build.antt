-- ===== src/Mesh/CellGrid/Build.antt =====
-- Building the grid: when it succeeds, and what it holds.
use voxel.Base.{
  ◌<◌, ◌≡◌, refl, ap, ◌∙◌, subst, Bool, false, not, ◌||◌, some, map, arith, ◌==◌, length, get_or,
  >>=-eq-some, reject->>, some_inj, get_or-map,
}
use voxel.Base.Loops.{for_below, for_below_inv}
use voxel.Blob.{CellValue, no_cell, UnpackedChunk}
use voxel.Mesh.CellGrid.{Grid, grid_at, grid_opaque, walk_cell, first_walk, build_grid, cell_total}
use voxel.Mesh.CellGrid.Slots.{
  Sound, Alive, walk_cell-Sound, walk_cell-Alive, IsMeshable, Names, first_walk-Named,
}
use voxel.Mesh.CellGrid.Cells.{InGrid, index_of, morton_encode_small, decode_encode}
use voxel.Morton.{LocalPos, morton_encode}

-- A chunk of 16 x 16 x 16 cells, each an entry of its palette, has a grid.
pub build_grid-IsMeshable :
    (chunk : UnpackedChunk) (is_opaque : CellValue → Bool)
    → IsMeshable chunk
    → (g : Grid) × (build_grid chunk is_opaque ≡ some g)
unfolding build_grid
build_grid-IsMeshable chunk is_opaque (extent, total, some_entry, in_palette) =
    let (w, e) =
      for_below_inv (Alive chunk.palette chunk.cells) (walk_cell chunk.palette chunk.cells)
        (length chunk.cells)
        (λ m o hm. walk_cell-Alive chunk.palette chunk.cells m o (in_palette m (omega arith)))
        (some first_walk) (first_walk, refl) in
    let shape : (not (chunk.log2_extent == 4) || not (length chunk.cells == cell_total)) ≡ false =
      ground arith in
    let entries : (length chunk.palette == 0) ≡ false = ground arith in
    (
      record { slot = w.slot; slot_opaque = map is_opaque chunk.palette },
      rw (shape, entries, e) refl,
    )

-- In the grid of a chunk, the slot of every place names the palette entry that equals the chunk's
-- cell there, and the place is opaque when the predicate holds of that cell.
pub build_grid-Names :
    (chunk : UnpackedChunk) (is_opaque : CellValue → Bool) (g : Grid) (p : LocalPos)
    → build_grid chunk is_opaque ≡ some g
    → InGrid p
    → Names chunk.palette (grid_at g p.x p.y p.z) (get_or chunk.cells (morton_encode p) no_cell)
      × (grid_opaque g p.x p.y p.z ≡ is_opaque (get_or chunk.cells (morton_encode p) no_cell))
unfolding build_grid grid_at grid_opaque
build_grid-Names chunk is_opaque g p h hp =
    let (shape, h1) =
      reject->> (not (chunk.log2_extent == 4) || not (length chunk.cells == cell_total)) _ h in
    let (entries, h2) = reject->> (length chunk.palette == 0) _ h1 in
    let (w, ew, last) =
      >>=-eq-some
        (for_below (length chunk.cells) (walk_cell chunk.palette chunk.cells) (some first_walk)) _
        h2 in
    let total : length chunk.cells ≡ 4096 = ground arith in
    let some_entry : 0 < length chunk.palette = ground arith in
    let same : record { slot = w.slot; slot_opaque = map is_opaque chunk.palette } ≡ g =
      some_inj _ _ last in
    let named =
      for_below_inv (Sound chunk.palette chunk.cells) (walk_cell chunk.palette chunk.cells)
        (length chunk.cells) (λ m o hm. walk_cell-Sound chunk.palette chunk.cells m o (omega arith))
        (some first_walk)
        (λ v ev. rw (← some_inj _ _ ev) (first_walk-Named chunk.palette chunk.cells some_entry)) w
        ew in
    let code = morton_encode p in
    let lt : code < length chunk.cells = omega (arith, morton_encode_small p hp) in
    let back = decode_encode p hp in
    let at : Names chunk.palette (get_or w.slot (index_of p) 0) (get_or chunk.cells code no_cell) =
      subst
        (λ q. Names chunk.palette (get_or w.slot (index_of q) 0) (get_or chunk.cells code no_cell))
        back (named.names code lt) in
    rw (← same) (at, get_or-map is_opaque chunk.palette _ no_cell false at.0 ∙ ap is_opaque at.1)
