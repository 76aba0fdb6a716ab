-- ===== src/Mesh/CellGrid.antt =====
-- src/mesh/greedy.cpp: the cell grid, re-indexed once from the Morton order, and the opacity of the
-- cells and of their neighbours. Cell indices and slots stay far below 2 ^ 32.
pub mod Cells
pub mod Slots
pub mod Build
use voxel.Base.{
  ℕ, zero, suc, ◌+◌, ◌-◌, ◌*◌, ◌/◌, ◌%◌, ◌^◌, ◌≤◌, ◌<◌, bit_and, bit_or, bit_xor, ◌≡◌, refl, sym,
  ap, ◌∙◌, subst, ◌≢◌, ◌↔◌, ◌⊎◌, inl, inr, Bool, true, false, not, ◌&&◌, ◌||◌, Option, none, some,
  List, [], ◌∷◌, ◌++◌, map, append_assoc, append-nil, arith, dec_lt, dec_le, ℕ_discrete, ltb, leb,
  ◌==◌, if◌then◌else◌, ltb→lt, lt→ltb, ltb-false→le, ==_iff, ==_refl, Bool-cases, Bool-agree,
  Option-cases, length, get_elem?, get_or, set, replicate, All, length-append, length-set,
  length-replicate, get_or-append_right, get_or-append_left, get_or-append_last, get_or-set_self,
  get_or-set_ne, get_or-replicate, eq_of_get_or, All-get_or, All-append, All-set, take, drop,
  take-append, drop-append, set-append, eq_tabulate, ◌>>=◌, ◌>>◌, reject, >>=-eq-some, reject->>,
  some_inj,
}
use voxel.Base.Loops.{for_below}
use voxel.Blob.{CellValue, cell_eq, no_cell, UnpackedChunk, probe}
use voxel.Morton.{LocalPos, morton_encode, morton_decode}

abbrev pub edge : ℕ
edge = 16

abbrev pub cell_total : ℕ
cell_total = edge * edge * edge

pub record Grid : Type 0 where
  pub slot : List ℕ
  pub slot_opaque : List Bool

abbrev pub cell_index : ℕ → ℕ → ℕ → ℕ
cell_index x y z = x + edge * (y + edge * z)

unfoldable pub grid_at : Grid → ℕ → ℕ → ℕ → ℕ
grid_at g x y z = get_or g.slot (cell_index x y z) 0

unfoldable pub grid_opaque : Grid → ℕ → ℕ → ℕ → Bool
grid_opaque g x y z = get_or g.slot_opaque (grid_at g x y z) false

-- The last match, or else the first slot of the palette that holds the cell.
unfoldable pub cell_slot : List CellValue → ℕ → CellValue → Option ℕ
cell_slot palette last cell =
    if cell_eq (get_or palette last no_cell) cell
    then some last
    else let s = probe palette cell in if s == length palette then none else some s

-- What the loop over the cells carries.
pub record Walk : Type 0 where
  pub last : ℕ
  pub slot : List ℕ

unfoldable pub place_slot : ℕ → ℕ → Walk → Walk
place_slot m s w =
    let p = morton_decode m in record { last = s; slot = set w.slot (cell_index p.x p.y p.z) s }

unfoldable pub walk_cell : List CellValue → List CellValue → ℕ → Option Walk → Option Walk
walk_cell palette cells m o = do
  w ← o
  s ← cell_slot palette w.last (get_or cells m no_cell)
  some (place_slot m s w)

abbrev pub first_walk : Walk
first_walk = record { last = 0; slot = replicate cell_total 0 }

unfoldable pub build_grid : UnpackedChunk → (CellValue → Bool) → Option Grid
build_grid chunk is_opaque = do
  reject (not (chunk.log2_extent == 4) || not (length chunk.cells == cell_total))
  reject (length chunk.palette == 0)
  w ← for_below (length chunk.cells) (walk_cell chunk.palette chunk.cells) (some first_walk)
  some (record { slot = w.slot; slot_opaque = map is_opaque chunk.palette })

unfoldable pub neighbor_opaque : List CellValue → ℕ → ℕ → ℕ → (CellValue → Bool) → Bool
neighbor_opaque view x y z is_opaque =
    if not (length view == cell_total)
    then false
    else is_opaque (get_or view (morton_encode (record { x = x; y = y; z = z })) no_cell)
