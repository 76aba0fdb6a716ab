-- ===== src/Blob/Repack.antt =====
-- Packing again what was unpacked, and the packer's refusals.
use voxel.Base.{
  ℕ, suc, ◌<◌, ◌≡◌, ◌≢◌, sym, ap, subst, ◌∙◌, ◌⊎◌, arith, List, [], ◌∷◌, length, get_elem?, All,
  some, some_inj,
}
use voxel.Bytes.{IsByte}
use voxel.Bytes.Laws.{get_u32-lt, get_u64-lt}
use voxel.Blob.{
  CellValue, UnpackedChunk, pack_voxel_blob, unpack_voxel_blob, read_palette_entry, cells_of_extent,
}
use voxel.Blob.Layout.{FitsCell}
use voxel.Blob.Palette.Distinct.{first_appearances}
use voxel.Blob.Emit.{Packable}
use voxel.Blob.RoundTrip.{unpack-pack}
use voxel.Blob.Access.{unpack_sound, header_cell_count}

All-get_elem? :
    (P : CellValue → Type 0) (xs : List CellValue)
    → ((j : ℕ) → j < length xs → (c : CellValue) × (get_elem? xs j ≡ some c) × P c)
    → All P xs
All-get_elem? P [] h = tt
All-get_elem? P (x ∷ xs) h =
    let (c, e, p) = h 0 (omega arith) in
    (subst P (sym (some_inj x c e)) p, All-get_elem? P xs (λ j lt. h (suc j) (omega arith)))

entry_fits : (blob : List ℕ) (slot : ℕ) → All IsByte blob → FitsCell (read_palette_entry blob slot)
unfolding read_palette_entry
entry_fits blob slot a = (get_u32-lt blob _ a, get_u64-lt blob _ a)

-- The cells of an unpacked byte vector can be packed.
pub unpack-Packable :
    (blob : List ℕ) (chunk : UnpackedChunk)
    → All IsByte blob
    → unpack_voxel_blob blob ≡ some chunk
    → Packable chunk.cells chunk.log2_extent
unpack-Packable blob chunk a e =
    let (h, eh, u) = unpack_sound blob chunk e in
    let (count, lo, hi) = header_cell_count blob h eh in
    record {
      extent = rw u.extent (lo, hi);
      count = u.cell_count ∙ count ∙ ap cells_of_extent (sym u.extent);
      fits = All-get_elem? FitsCell chunk.cells (λ j lt.
          let lt' : j < h.cell_count = rw u.cell_count at lt in
          (read_palette_entry blob _, u.cell j lt', entry_fits blob _ a));
    }

-- Any byte vector that unpacks, over-wide or not, can be packed again: the canonical blob unpacks
-- to the same extent and cells, with the distinct cells in order of first appearance as palette.
pub unpack-repack :
    (blob : List ℕ) (chunk : UnpackedChunk)
    → All IsByte blob
    → unpack_voxel_blob blob ≡ some chunk
    → unpack_voxel_blob (pack_voxel_blob chunk.cells chunk.log2_extent)
      ≡ some (record chunk { palette = first_appearances chunk.cells })
unpack-repack blob chunk a e =
    unpack-pack chunk.cells chunk.log2_extent (unpack-Packable blob chunk a e)

-- The packer answers with the empty vector when the extent is out of range or the number of cells
-- does not match it.
pub pack_rejects :
    (cells : List CellValue) (k : ℕ)
    → (k ≡ 0) ⊎ (5 < k) ⊎ (length cells ≢ cells_of_extent k)
    → pack_voxel_blob cells k ≡ []
unfolding pack_voxel_blob
pack_rejects cells k h = ground arith
