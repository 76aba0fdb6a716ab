-- ===== src/Belt/Contents.antt =====
-- What the belt makes of a generated chunk: its cells in Morton order, and the blob that unpacks.
use voxel.Base.{
  ℕ, zero, suc, ◌^◌, ◌<◌, ◌≡◌, sym, ap, ◌∙◌, ◌≢◌, inl, inr, true, some, List, [], ◌∷◌, arith,
  Bool-cases, length, get_or, set, replicate, All, length-set, length-replicate, get_or-set_self,
  get_or-set_ne, All-set,
}
use voxel.Base.Int.{ℤ, to_u32}
use voxel.Base.Nest.{
  is_at, is_at_parts, before, before_next, before_row, before_slice, before_all, before_none,
  nest_inv,
}
use voxel.Belt.{morton_cells, generated_blob}
use voxel.Blob.{CellValue, no_cell, UnpackedChunk, unpack_voxel_blob}
use voxel.Blob.Emit.{Packable}
use voxel.Blob.Layout.{FitsCell}
use voxel.Blob.Palette.Distinct.{first_appearances}
use voxel.Blob.RoundTrip.{unpack-pack}
use voxel.Gen.Chunk.{GenChunk, GenChunkPos, gen_index, chunk_at, blank_chunk, generate_chunk}
use voxel.Gen.Structure.{air}
use voxel.Gen.Chunk.Contents.{IsFilled, generate_chunk-IsFilled}
use voxel.Gen.Structure.Reach.{IsContent}
use voxel.Mesh.CellGrid.Cells.{morton_encode_small, decode_encode}
use voxel.Morton.{LocalPos, morton_encode, morton_decode}

-- In bounds and behind the end.
All_or_default : (P : ℕ → Type 0) (xs : List ℕ) (i d : ℕ) → All P xs → P d → P (get_or xs i d)
All_or_default P [] i d h hd = hd
All_or_default P (x ∷ xs) zero d h hd = h.0
All_or_default P (x ∷ xs) (suc i) d h hd = All_or_default P xs i d h.1 hd

abbrev pub cell_of : GenChunk → ℕ → ℕ → ℕ → CellValue
cell_of g x y z = record { content = chunk_at g x y z; state = 0 }

abbrev code_of : ℕ → ℕ → ℕ → ℕ
code_of x y z = morton_encode (record { x = x; y = y; z = z })

code_of_inj :
    (a b c x y z : ℕ)
    → a < 16
    → b < 16
    → c < 16
    → x < 16
    → y < 16
    → z < 16
    → code_of a b c ≡ code_of x y z
    → is_at a b c x y z ≡ true
unfolding is_at
code_of_inj a b c x y z ha hb hc hx hy hz e =
    let p : LocalPos = record { x = a; y = b; z = c } in
    let q : LocalPos = record { x = x; y = y; z = z } in
    let same : p ≡ q =
      sym (decode_encode p (ha, hb, hc)) ∙ ap morton_decode e ∙ decode_encode q (hx, hy, hz) in
    let ex : a ≡ x = ap (λ (r : LocalPos). r.x) same in
    let ey : b ≡ y = ap (λ (r : LocalPos). r.y) same in
    let ez : c ≡ z = ap (λ (r : LocalPos). r.z) same in rw (ex, ey, ez) (ground arith)

module _ (g : GenChunk) where
  -- The cells of the places that the loops are through with are copied.
  abbrev Copied : ℕ → ℕ → ℕ → List CellValue → Type 0
  Copied a b c cells =
      (length cells ≡ 4096)
      × ((x y z : ℕ)
          → x < 16
          → y < 16
          → z < 16
          → before a b c x y z ≡ true
          → get_or cells (code_of x y z) no_cell ≡ cell_of g x y z)

  copy_one :
      (a b c : ℕ) (cells : List CellValue)
      → a < 16
      → b < 16
      → c < 16
      → Copied a b c cells
      → Copied (suc a) b c (set cells (code_of a b c) (cell_of g a b c))
  copy_one a b c cells ha hb hc (size, h) = (
    length-set cells (code_of a b c) (cell_of g a b c) ∙ size,
    λ x y z hx hy hz e. elim (Bool-cases (is_at a b c x y z)) [
      | inl at ↦
          let (ex, ey, ez) = is_at_parts a b c x y z at in
          let small = morton_encode_small (record { x = a; y = b; z = c }) (ha, hb, hc) in
          rw (← ex, ← ey, ← ez)
            (get_or-set_self cells (code_of a b c) (cell_of g a b c) no_cell (omega arith))
      | inr off ↦
          let other : code_of a b c ≢ code_of x y z = λ same.
            let at = code_of_inj a b c x y z ha hb hc hx hy hz same in absurd (ground arith) in
          let earlier : before a b c x y z ≡ true = rw off at (before_next a b c x y z ∙ e) in
          get_or-set_ne cells (code_of a b c) (code_of x y z) (cell_of g a b c) no_cell other
          ∙ h x y z hx hy hz earlier
    ],
  )

  morton_cells-Copied : Copied 0 0 16 (morton_cells g)
  unfolding morton_cells
  morton_cells-Copied =
      nest_inv Copied (λ c b a cells. set cells (code_of a b c) (cell_of g a b c)) 16 16 16 copy_one
        (λ b c s (size, h).
          (size, λ x y z hx hy hz e. h x y z hx hy hz (before_row 16 b c x y z hx ∙ e)))
        (λ c s (size, h).
          (size, λ x y z hx hy hz e. h x y z hx hy hz (before_slice 16 c x y z hy ∙ e)))
        (replicate 4096 no_cell)
        (
          length-replicate 4096 no_cell,
          λ x y z hx hy hz e. let no = before_none x y z in absurd (ground arith),
        )

  -- The cell of a position stands at the position's Morton code, with state 0.
  pub get_or-morton_cells :
      (x y z : ℕ)
      → x < 16
      → y < 16
      → z < 16
      → get_or (morton_cells g) (morton_encode (record { x = x; y = y; z = z })) no_cell
        ≡ record { content = chunk_at g x y z; state = 0 }
  get_or-morton_cells x y z hx hy hz = morton_cells-Copied.1 x y z hx hy hz (before_all 16 x y z hz)

  morton_cells-FitsCell : IsFilled g → All FitsCell (morton_cells g)
  unfolding morton_cells
  morton_cells-FitsCell filled =
      nest_inv (λ a b c. All FitsCell) (λ c b a cells. set cells (code_of a b c) (cell_of g a b c))
        16 16 16
        (λ a b c s ha hb hc h.
          All-set FitsCell s (code_of a b c) _ h (small (gen_index a b c), omega arith))
        (λ b c s h. h) (λ c s h. h) (replicate 4096 no_cell) (none_yet 4096)
    where
      small : (i : ℕ) → get_or g i air < 2 ^ 32
      small i = let c = All_or_default IsContent g i air filled (omega arith) in omega arith

      none_yet : (n : ℕ) → All FitsCell (replicate n no_cell)
      none_yet zero = tt
      none_yet (suc n) = ((omega arith, omega arith), none_yet n)

-- The chunk that a miss gives: its extent, the distinct cells, and the generated cells.
abbrev pub generated_chunk : ℕ → ℤ → ℤ → ℤ → UnpackedChunk
generated_chunk seed cx cy cz =
    let at : GenChunkPos = record { cx = to_u32 cx; cy = to_u32 cy; cz = to_u32 cz } in
    let cells = morton_cells (generate_chunk seed at blank_chunk) in
    record { log2_extent = 4; palette = first_appearances cells; cells = cells }

-- The blob of a generated chunk unpacks to the generated cells.
pub unpack-generated_blob :
    (seed : ℕ) (cx cy cz : ℤ)
    → unpack_voxel_blob (generated_blob seed cx cy cz) ≡ some (generated_chunk seed cx cy cz)
unfolding generated_blob
unpack-generated_blob seed cx cy cz =
    let at : GenChunkPos = record { cx = to_u32 cx; cy = to_u32 cy; cz = to_u32 cz } in
    let g = generate_chunk seed at blank_chunk in
    let packable : Packable (morton_cells g) 4 = record {
      extent = (omega arith, omega arith);
      count = (morton_cells-Copied g).0;
      fits = morton_cells-FitsCell g (generate_chunk-IsFilled seed at);
    } in
    unpack-pack (morton_cells g) 4 packable
