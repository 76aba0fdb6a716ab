-- ===== src/Blob/RoundTrip.antt =====
-- Unpacking what the packer emits gives the cells back, with the canonical palette.
use native.Mathlib.Nat.{zero-add}
use voxel.Base.{
  ℕ, ◌≡◌, ap, subst, ◌∙◌, true, false, arith, List, [], length, some, ltb, ◌==◌, ◌||◌, ==_iff,
}
use voxel.Blob.{
  CellValue, emit_blob, pack_voxel_blob, unpack_voxel_blob, read_palette, read_cells,
  cells_of_extent,
}
use voxel.Blob.Palette.{palette_of, slots_of, slots_inside, slots_lead_back, length-slots_of}
use voxel.Blob.Palette.Distinct.{first_appearances, palette-first_appearances}
use voxel.Blob.Index.{read_palette_lem, read_cells_lem}
use voxel.Blob.Emit.{Packable, header, read_emit, entry_emit, slot_emit}

unpack-emit :
    (cells : List CellValue) (k : ℕ)
    → Packable cells k
    → unpack_voxel_blob (emit_blob cells k)
      ≡ some (record { log2_extent = k; palette = palette_of [] cells; cells = cells })
unfolding unpack_voxel_blob
unpack-emit cells k ok = rw (read_emit cells k ok, palette_read, cells_read)
  where
    blob : List ℕ
    blob = emit_blob cells k

    palette_read : read_palette blob (length (palette_of [] cells)) 0 ≡ palette_of [] cells
    palette_read =
        read_palette_lem blob (palette_of [] cells) 0
          (λ i lt. rw (zero-add i) (entry_emit cells k ok i lt))

    cells_read :
        read_cells blob (header cells k) (palette_of [] cells) (cells_of_extent k) 0 ≡ some cells
    cells_read =
        subst (λ n. read_cells blob (header cells k) (palette_of [] cells) n 0 ≡ some cells)
          (length-slots_of [] cells ∙ ok.count)
          (read_cells_lem blob (header cells k) (palette_of [] cells) (slots_of [] cells) 0
              (slots_inside [] cells)
              (λ j lt.
                rw (zero-add j) (slot_emit cells k ok j (rw (length-slots_of [] cells) at lt)))
            ∙ ap some (slots_lead_back [] cells))

-- For an extent of 1 to 5 and as many cells as the extent has, with fields that fit their words,
-- the packed blob unpacks to the same extent and cells, and its palette lists the distinct cells
-- in the order of their first appearance.
pub unpack-pack :
    (cells : List CellValue) (k : ℕ)
    → Packable cells k
    → unpack_voxel_blob (pack_voxel_blob cells k)
      ≡ some (record { log2_extent = k; palette = first_appearances cells; cells = cells })
unfolding pack_voxel_blob
unpack-pack cells k ok =
    let in_range : (ltb k 1 || ltb 5 k) ≡ false = ground (arith, ok.extent) in
    let counted : (length cells == cells_of_extent k) ≡ true =
      (==_iff (length cells) (cells_of_extent k)).1 ok.count in
    rw (in_range, counted) (unpack-emit cells k ok ∙ rw (palette-first_appearances cells))
