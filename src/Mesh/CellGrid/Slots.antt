-- ===== src/Mesh/CellGrid/Slots.antt =====
-- The grid that is built names every cell by its palette slot.
use voxel.Base.{
  ℕ, suc, ◌<◌, ◌≡◌, refl, sym, ◌∙◌, ◌≢◌, inl, inr, Option, none, some, List, arith, ℕ_discrete,
  ◌==◌, Bool-cases, length, get_or, length-set, length-replicate, get_or-set_self, get_or-set_ne,
  ◌>>=◌, >>=-eq-some, some_inj,
}
use voxel.Blob.{CellValue, cell_eq, no_cell, UnpackedChunk, probe}
use voxel.Blob.Palette.{cell_eq→eq, probe-le, get_or-probe}
use voxel.Mesh.CellGrid.{cell_slot, Walk, place_slot, walk_cell, first_walk, cell_total}
use voxel.Mesh.CellGrid.Cells.{index_of, index_of_inj, morton_decode-InGrid}
use voxel.Morton.{morton_decode}

-- What `cell_slot` can do.
data Found (palette : List CellValue) (last : ℕ) (cell : CellValue) : Type 0 where
  absent :
      probe palette cell ≡ length palette
      → cell_slot palette last cell ≡ none
      → Found palette last cell
  found :
      (s : ℕ)
      → cell_slot palette last cell ≡ some s
      → (last < length palette → s < length palette)
      → get_or palette s no_cell ≡ cell
      → Found palette last cell

cell_slot-Found : (palette : List CellValue) (last : ℕ) (cell : CellValue) → Found palette last cell
unfolding cell_slot
cell_slot-Found palette last cell = elim (Bool-cases (cell_eq (get_or palette last no_cell) cell)) [
  | inl e ↦ found last (rw e refl) (λ h. h) (cell_eq→eq _ cell e)
  | inr e ↦ elim (Bool-cases (probe palette cell == length palette)) [
    | inl end ↦ absent (ground arith) (rw (e, end) refl)
    | inr in_palette ↦
        let le = probe-le palette cell in
        let lt : probe palette cell < length palette = ground arith in
        found (probe palette cell) (rw (e, in_palette) refl) (λ _. lt)
          (get_or-probe palette cell lt)
  ]
]

-- A slot that stands for a cell.
abbrev pub Names : List CellValue → ℕ → CellValue → Type 0
Names palette s cell = (s < length palette) × (get_or palette s no_cell ≡ cell)

module _ (palette : List CellValue) (cells : List CellValue) where
  pub record Named (k : ℕ) (w : Walk) : Type 0 where
    pub last_in : w.last < length palette
    pub all_cells : length w.slot ≡ 4096
    pub names :
        (j : ℕ)
        → j < k
        → Names palette (get_or w.slot (index_of (morton_decode j)) 0) (get_or cells j no_cell)

  place_slot-Named :
      (m s : ℕ) (w : Walk)
      → m < cell_total
      → Names palette s (get_or cells m no_cell)
      → Named m w
      → Named (suc m) (place_slot m s w)
  unfolding place_slot
  place_slot-Named m s w hm named h =
      let at = index_of (morton_decode m) in
      let (hx, hy, hz) = morton_decode-InGrid m hm in
      record {
        last_in = named.0;
        all_cells = length-set w.slot at s ∙ h.all_cells;
        names = λ j hj. elim (ℕ_discrete j m) [
          | yes e ↦
              let here = get_or-set_self w.slot at s 0 (omega (arith, h.all_cells)) in
              rw (e, here) named
          | no ne ↦
              let other : at ≢ index_of (morton_decode j) =
                λ e. ne (sym (index_of_inj m j hm (omega arith) e)) in
              rw (get_or-set_ne w.slot at (index_of (morton_decode j)) s 0 other)
                (h.names j (omega arith))
        ];
      }

  abbrev pub Sound : ℕ → Option Walk → Type 0
  Sound k o = (w : Walk) → o ≡ some w → Named k w

  pub walk_cell-Sound :
      (m : ℕ) (o : Option Walk)
      → m < cell_total
      → Sound m o
      → Sound (suc m) (walk_cell palette cells m o)
  unfolding walk_cell
  walk_cell-Sound m o hm h w' e =
      let cell = get_or cells m no_cell in
      let (w, ew, rest) =
        >>=-eq-some o (λ w. cell_slot palette w.last cell >>= (λ s. some (place_slot m s w))) e in
      let (s, es, last) =
        >>=-eq-some (cell_slot palette w.last cell) (λ s. some (place_slot m s w)) rest in
      let named = h w ew in
      rw (← some_inj _ _ last) (
        place_slot-Named m s w hm
          (names_of w.last cell s named.last_in es (cell_slot-Found palette w.last cell)) named)
    where
      names_of :
          (before : ℕ) (cell : CellValue) (s : ℕ)
          → before < length palette
          → cell_slot palette before cell ≡ some s
          → Found palette before cell
          → Names palette s cell
      names_of before cell s lt e (absent _ none_found) = cc
      names_of before cell s lt e (found t et inside is) =
          let same : t ≡ s = some_inj t s (sym et ∙ e) in rw (← same) (inside lt, is)

  -- With every cell in the palette the walk goes through.
  abbrev pub Alive : ℕ → Option Walk → Type 0
  Alive k o = (w : Walk) × (o ≡ some w)

  pub walk_cell-Alive :
      (m : ℕ) (o : Option Walk)
      → probe palette (get_or cells m no_cell) < length palette
      → Alive m o
      → Alive (suc m) (walk_cell palette cells m o)
  unfolding walk_cell
  walk_cell-Alive m o here (w, e) =
      rw e (goes_on (cell_slot-Found palette w.last (get_or cells m no_cell)))
    where
      goes_on :
          Found palette w.last (get_or cells m no_cell)
          → (w' : Walk) × ((cell_slot palette w.last (get_or cells m no_cell)
                >>= (λ s. some (place_slot m s w)))
              ≡ some w')
      goes_on (absent end _) = absurd (omega arith)
      goes_on (found s es _ _) = (place_slot m s w, rw es refl)

-- Whether the shape of a chunk is the mesher's, and every cell is an entry of the palette.
abbrev pub IsMeshable : UnpackedChunk → Type 0
IsMeshable chunk =
    (chunk.log2_extent ≡ 4)
    × (length chunk.cells ≡ cell_total)
    × (0 < length chunk.palette)
    × ((m : ℕ)
        → m < cell_total
        → probe chunk.palette (get_or chunk.cells m no_cell) < length chunk.palette)

pub first_walk-Named :
    (palette cells : List CellValue) → 0 < length palette → Named palette cells 0 first_walk
first_walk-Named palette cells h = record {
  last_in = h;
  all_cells = length-replicate {A = ℕ} 4096 0;
  names = λ j hj. absurd (omega arith);
}
