-- ===== src/Blob/Access.antt =====
-- The readers on any byte vector, canonical or not: what a successful unpack returns, when it
-- fails, and random access against it.
use native.Mathlib.Nat.{zero-add}
use voxel.Base.{
  ℕ, zero, suc, ◌+◌, ◌^◌, ◌≤◌, ◌<◌, ◌≡◌, refl, sym, ap, subst, ◌∙◌, arith, List, [], ◌∷◌, length,
  get_or, get_elem?, none, some, leb, ◌||◌, true, false, Bool-cases, inl, inr, reject->>, some_inj,
  >>=-eq-some,
}
use voxel.Morton.{LocalPos, morton_encode}
use voxel.Morton.Bricks.{InExtent, morton_encode-lt}
use voxel.Blob.{
  CellValue, UnpackedChunk, HeaderInfo, no_cell, unpack_voxel_blob, blob_cell_at, read_header,
  read_palette, read_palette_entry, read_cells, slot_of, cells_of_extent, announced,
}
use voxel.Blob.Header.{read_header_tests}

get_or-read_palette :
    (blob : List ℕ) (n s i : ℕ)
    → i < n
    → get_or (read_palette blob n s) i no_cell ≡ read_palette_entry blob (s + i)
unfolding read_palette
get_or-read_palette blob zero s i h = elim h [ ]
get_or-read_palette blob (suc n) s zero h = let e : s + 0 ≡ s = omega arith in rw e
get_or-read_palette blob (suc n) s (suc i) h =
    let e : s + suc i ≡ s + 1 + i = omega arith in
    rw e (get_or-read_palette blob n (s + 1) i (omega arith))

length-read_palette : (blob : List ℕ) (n s : ℕ) → length (read_palette blob n s) ≡ n
unfolding read_palette
length-read_palette blob zero s = refl
length-read_palette blob (suc n) s = ap suc (length-read_palette blob n (s + 1))

-- What a successful run of the cell loop has checked and returned.
read_cells_sound :
    (blob : List ℕ) (h : HeaderInfo) (palette : List CellValue) (n i : ℕ) (cells : List CellValue)
    → read_cells blob h palette n i ≡ some cells
    → (length cells ≡ n)
      × ((j : ℕ)
          → j < n
          → (slot_of blob h (i + j) < h.palette_count)
            × (get_elem? cells j ≡ some (get_or palette (slot_of blob h (i + j)) no_cell)))
unfolding read_cells
read_cells_sound blob h palette zero i cells e =
    (ap length (sym (some_inj [] cells e)), λ j h. elim h [ ])
read_cells_sound blob h palette (suc n) i cells e =
    let x = get_or palette (slot_of blob h i) no_cell in
    let (fits, e₁) = reject->> (leb h.palette_count (slot_of blob h i)) _ e in
    let (rest, er, e₂) = >>=-eq-some (read_cells blob h palette n (i + 1)) _ e₁ in
    let (len, cell) = read_cells_sound blob h palette n (i + 1) rest er in
    subst
      (λ cs.
        (length cs ≡ suc n)
        × ((j : ℕ)
            → j < suc n
            → (slot_of blob h (i + j) < h.palette_count)
              × (get_elem? cs j ≡ some (get_or palette (slot_of blob h (i + j)) no_cell))))
      (some_inj (x ∷ rest) cells e₂) (ap suc len, each x rest fits cell)
  where
    each :
        (x : CellValue) (rest : List CellValue)
        → leb h.palette_count (slot_of blob h i) ≡ false
        → ((j : ℕ)
            → j < n
            → (slot_of blob h (i + 1 + j) < h.palette_count)
              × (get_elem? rest j ≡ some (get_or palette (slot_of blob h (i + 1 + j)) no_cell)))
        → (j : ℕ) → j < suc n
        → (slot_of blob h (i + j) < h.palette_count)
          × (get_elem? (get_or palette (slot_of blob h i) no_cell ∷ rest) j
              ≡ some (get_or palette (slot_of blob h (i + j)) no_cell))
    each x rest fits cell zero lt = let e : i + 0 ≡ i = omega arith in rw e (ground arith, refl)
    each x rest fits cell (suc j) lt =
        let e : i + suc j ≡ i + 1 + j = omega arith in rw e (cell j (omega arith))

-- One slot out of range, and the cell loop fails.
read_cells_rejects :
    (blob : List ℕ) (h : HeaderInfo) (palette : List CellValue) (n i j : ℕ)
    → j < n
    → h.palette_count ≤ slot_of blob h (i + j)
    → read_cells blob h palette n i ≡ none
unfolding read_cells
read_cells_rejects blob h palette zero i j lt out = elim lt [ ]
read_cells_rejects blob h palette (suc n) i zero lt out =
    let e : i + 0 ≡ i = omega arith in
    let out' : h.palette_count ≤ slot_of blob h i = rw e at out in
    let bad : leb h.palette_count (slot_of blob h i) ≡ true = ground arith in rw bad
read_cells_rejects blob h palette (suc n) i (suc j) lt out =
    let e : i + suc j ≡ i + 1 + j = omega arith in
    let later = read_cells_rejects blob h palette n (i + 1) j (omega arith) (rw e at out) in
    elim (Bool-cases (leb h.palette_count (slot_of blob h i))) [
      | inl bad ↦ rw bad
      | inr good ↦ rw (good, later)
    ]

-- The facts behind a successful unpack of a byte vector.
pub record IsUnpacked (blob : List ℕ) (h : HeaderInfo) (chunk : UnpackedChunk) : Type 0 where
  pub extent : chunk.log2_extent ≡ h.log2_extent
  pub palette : chunk.palette ≡ read_palette blob h.palette_count 0
  pub cell_count : length chunk.cells ≡ h.cell_count
  pub slot_in_range : (j : ℕ) → j < h.cell_count → slot_of blob h j < h.palette_count
  pub cell :
      (j : ℕ)
      → j < h.cell_count
      → get_elem? chunk.cells j ≡ some (read_palette_entry blob (slot_of blob h j))

-- A successful unpack has read a valid header, found every index inside of the palette, and
-- returned for each cell of the extent the palette entry of its index.
pub unpack_sound :
    (blob : List ℕ) (chunk : UnpackedChunk)
    → unpack_voxel_blob blob ≡ some chunk
    → (h : HeaderInfo) × (read_header blob ≡ some h) × IsUnpacked blob h chunk
unfolding unpack_voxel_blob
unpack_sound blob chunk e =
    let (h, eh, e₁) = >>=-eq-some (read_header blob) _ e in
    let (cells, ec, e₂) =
      >>=-eq-some (read_cells blob h (read_palette blob h.palette_count 0) h.cell_count 0) _ e₁ in
    (h, eh, subst (IsUnpacked blob h) (some_inj _ chunk e₂) (built h cells ec))
  where
    built :
        (h : HeaderInfo) (cells : List CellValue)
        → read_cells blob h (read_palette blob h.palette_count 0) h.cell_count 0 ≡ some cells
        → IsUnpacked blob h (record {
          log2_extent = h.log2_extent;
          palette = read_palette blob h.palette_count 0;
          cells = cells;
        })
    built h cells ec =
        let (len, each) = read_cells_sound blob h _ h.cell_count 0 cells ec in
        let fits = λ (j : ℕ) (lt : j < h.cell_count). rw zero-add at (each j lt).0 in
        record {
          extent = refl;
          palette = refl;
          cell_count = len;
          slot_in_range = fits;
          cell = λ j lt.
              (rw zero-add at (each j lt).1)
              ∙ ap some (get_or-read_palette blob h.palette_count 0 _ (fits j lt) ∙ rw zero-add);
        }

-- One index out of range behind a valid header, and unpacking fails.
pub unpack_rejects :
    (blob : List ℕ) (h : HeaderInfo) (j : ℕ)
    → read_header blob ≡ some h
    → j < h.cell_count
    → h.palette_count ≤ slot_of blob h j
    → unpack_voxel_blob blob ≡ none
unfolding unpack_voxel_blob
unpack_rejects blob h j eh lt out =
    rw (eh, read_cells_rejects blob h _ h.cell_count 0 j lt (rw zero-add out))

pub header_cell_count :
    (blob : List ℕ) (h : HeaderInfo)
    → read_header blob ≡ some h
    → (h.cell_count ≡ cells_of_extent h.log2_extent) × (1 ≤ h.log2_extent) × (h.log2_extent ≤ 5)
unfolding announced
header_cell_count blob h e =
    let (same, valid) = (read_header_tests blob h).0 e in
    (
      subst (λ a. a.cell_count ≡ cells_of_extent a.log2_extent) same refl,
      valid.extent.0,
      valid.extent.1,
    )

cube_eight : (k : ℕ) → k ≤ 5 → cells_of_extent k ≡ 8 ^ k
cube_eight zero h = refl
cube_eight (suc zero) h = refl
cube_eight (suc (suc zero)) h = refl
cube_eight (suc (suc (suc zero))) h = refl
cube_eight (suc (suc (suc (suc zero)))) h = refl
cube_eight (suc (suc (suc (suc (suc zero))))) h = refl
cube_eight (suc (suc (suc (suc (suc (suc k)))))) h = absurd (omega arith)

-- Random access into a blob that unpacks returns the cell that the unpacked chunk has at the
-- Morton code of the position, for each position inside of the extent.
pub blob_cell_at-unpack :
    (blob : List ℕ) (chunk : UnpackedChunk) (pos : LocalPos)
    → unpack_voxel_blob blob ≡ some chunk
    → InExtent chunk.log2_extent pos
    → (c : CellValue) × (get_elem? chunk.cells (morton_encode pos) ≡ some c)
      × (blob_cell_at blob pos ≡ some c)
unfolding blob_cell_at
blob_cell_at-unpack blob chunk pos e inside =
    let (h, eh, u) = unpack_sound blob chunk e in
    let (count, lo, hi) = header_cell_count blob h eh in
    let inside' : InExtent h.log2_extent pos = subst (λ k. InExtent k pos) u.extent inside in
    let (hx, hy, hz) = inside' in
    let cell = morton_encode pos in
    let below : cell < h.cell_count =
      rw (count, cube_eight h.log2_extent hi)
        (morton_encode-lt h.log2_extent pos (omega arith) inside') in
    let in_box : (leb (2 ^ h.log2_extent) pos.x
          || (leb (2 ^ h.log2_extent) pos.y || leb (2 ^ h.log2_extent) pos.z))
        ≡ false =
      ground arith in
    let good : leb h.palette_count (slot_of blob h cell) ≡ false =
      ground (arith, u.slot_in_range cell below) in
    (read_palette_entry blob (slot_of blob h cell), u.cell cell below, rw (eh, in_box, good))

-- A position outside of the extent of a valid header has no cell.
pub blob_cell_at_outside :
    (blob : List ℕ) (h : HeaderInfo) (pos : LocalPos)
    → read_header blob ≡ some h
    → ¬ InExtent h.log2_extent pos
    → blob_cell_at blob pos ≡ none
unfolding blob_cell_at
blob_cell_at_outside blob h pos e out =
    let off : (leb (2 ^ h.log2_extent) pos.x
          || (leb (2 ^ h.log2_extent) pos.y || leb (2 ^ h.log2_extent) pos.z))
        ≡ true =
      ground arith in
    rw (e, off)
