-- ===== src/Mesh/Mask.antt =====
-- src/mesh/greedy.cpp, buildMask: which faces of one slice are visible. The axis is d, and u and v
-- are the two axes of the slice.
use voxel.Base.{
  ℕ, zero, suc, ◌+◌, ◌-◌, ◌*◌, ◌/◌, ◌%◌, ◌^◌, Bool, not, List, [], ◌∷◌, ltb, leb, if◌then◌else◌,
  tabulate, get_or, set,
}
use voxel.Blob.{CellValue}
use voxel.Mesh.CellGrid.{Grid, grid_at, grid_opaque, neighbor_opaque, edge}

-- `~0u`
abbrev pub no_face : ℕ
no_face = 2 ^ 32 - 1

pub record NeighborViews : Type 0 where
  pub neg_x : List CellValue
  pub pos_x : List CellValue
  pub neg_y : List CellValue
  pub pos_y : List CellValue
  pub neg_z : List CellValue
  pub pos_z : List CellValue

abbrev pub axis_u : ℕ → ℕ
axis_u d = (d + 1) % 3

abbrev pub axis_v : ℕ → ℕ
axis_v d = (d + 2) % 3

-- `int c[3]` with `c[d] = p; c[u] = a; c[v] = b;`
unfoldable pub on_axes : ℕ → ℕ → ℕ → ℕ → List ℕ
on_axes d p a b = set (set (set (0 ∷ 0 ∷ 0 ∷ []) d p) (axis_u d) a) (axis_v d) b

abbrev pub coord : List ℕ → ℕ → ℕ
coord c axis = get_or c axis 0

-- `2 * d + (positive ? 0 : 1)`
abbrev pub side : ℕ → Bool → ℕ
side d positive = 2 * d + (if positive then 0 else 1)

-- The `switch` over the sides.
unfoldable pub side_view : NeighborViews → ℕ → List CellValue
side_view nb zero = nb.pos_x
side_view nb (suc zero) = nb.neg_x
side_view nb (suc (suc zero)) = nb.pos_y
side_view nb (suc (suc (suc zero))) = nb.neg_y
side_view nb (suc (suc (suc (suc zero)))) = nb.pos_z
side_view nb n = nb.neg_z

-- Whether the cell behind the face is opaque. `n[d]` runs from -1 to 16: it stays in the grid unless
-- the face lies on the boundary, where the layer wraps around.
unfoldable pub covered : Grid → NeighborViews → (CellValue → Bool) → ℕ → Bool → ℕ → ℕ → ℕ → Bool
covered grid nb is_opaque d positive slice uu vv =
    let n = on_axes d (if positive then slice + 1 else slice - 1) uu vv in
    let nn = on_axes d (if positive then 0 else edge - 1) uu vv in
    let view = side_view nb (side d positive) in
    if (if positive then ltb (slice + 1) edge else leb 1 slice)
    then grid_opaque grid (coord n 0) (coord n 1) (coord n 2)
    else neighbor_opaque view (coord nn 0) (coord nn 1) (coord nn 2) is_opaque

-- One element of the mask.
unfoldable pub cell_mask : Grid → NeighborViews → (CellValue → Bool) → ℕ → Bool → ℕ → ℕ → ℕ → ℕ
cell_mask grid nb is_opaque d positive slice uu vv =
    let c = on_axes d slice uu vv in
    if not (grid_opaque grid (coord c 0) (coord c 1) (coord c 2))
    then no_face
    else if covered grid nb is_opaque d positive slice uu vv
    then no_face
    else grid_at grid (coord c 0) (coord c 1) (coord c 2)

-- The two loops write every element, the one of (uu, vv) at `uu * 16 + vv`.
unfoldable pub build_mask : Grid → NeighborViews → (CellValue → Bool) → ℕ → Bool → ℕ → List ℕ
build_mask grid nb is_opaque d positive slice =
    tabulate (edge * edge) (λ i. cell_mask grid nb is_opaque d positive slice (i / edge) (i % edge))
