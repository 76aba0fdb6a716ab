-- ===== src/Blob/Examples.antt =====
-- The blob theorems at concrete chunks, and runs of the codec.
use voxel.Base.{ℕ, ◌≤◌, ◌≡◌, ◌↔◌, refl, arith, List, [], ◌∷◌, get_elem?, replicate, some, none}
use voxel.Bytes.{put_u32, put_u64, put_le, get_u32, get_u64, get_le}
use voxel.Morton.{morton_encode}
use voxel.Blob.{
  CellValue, UnpackedChunk, HeaderInfo, pack_voxel_blob, unpack_voxel_blob, blob_cell_at, emit_blob,
  first_loop, probe, admit, put_entries, put_header, read_header, announced, read_palette,
  read_cells, read_index, slot_of, read_palette_entry, minimal_index_bits, legal_index_bits,
  palette_misfits,
}
use voxel.Blob.Palette.Distinct.{first_appearances}
use voxel.Blob.Emit.{Packable}
use voxel.Blob.Format.{IsBlobHeader, read_header_iff}
use voxel.Blob.RoundTrip.{unpack-pack}
use voxel.Blob.Access.{unpack_rejects, blob_cell_at-unpack}

abbrev stone : CellValue
stone = record { content = 5; state = 7 }

abbrev grass : CellValue
grass = record { content = 3; state = 0 }

abbrev torch : CellValue
torch = record { content = 9; state = 2 }

-- A chunk of edge 2 with three distinct cells.
abbrev small_cells : List CellValue
small_cells = stone ∷ grass ∷ torch ∷ stone ∷ stone ∷ stone ∷ grass ∷ stone ∷ []

abbrev small_chunk : UnpackedChunk
small_chunk = record { log2_extent = 1; palette = stone ∷ grass ∷ torch ∷ []; cells = small_cells }

small-Packable : Packable small_cells 1
small-Packable = record { extent = omega arith; count = refl; fits = omega arith }

-- The blob of a uniform chunk has no index stream.
abbrev uniform_blob : List ℕ
uniform_blob =
    0x56 ∷ 0x58 ∷ 0x42 ∷ 0x31 ∷ 1 ∷ 1 ∷ 0 ∷ 0 ∷ 1 ∷ 0 ∷ 0 ∷ 0 ∷ 0 ∷ 0 ∷ 0 ∷ 0 ∷ 5 ∷ 0 ∷ 0 ∷ 0 ∷ 0
    ∷ 0 ∷ 0 ∷ 0 ∷ 7 ∷ 0 ∷ 0 ∷ 0 ∷ 0 ∷ 0 ∷ 0 ∷ 0 ∷ []

abbrev uniform_chunk : UnpackedChunk
uniform_chunk = record { log2_extent = 1; palette = stone ∷ []; cells = replicate 8 stone }

-- The same chunk at a width of one bit, with the stream all 0: over-wide, and valid.
abbrev wide_blob : List ℕ
wide_blob =
    0x56
    ∷ 0x58
    ∷ 0x42
    ∷ 0x31
    ∷ 1
    ∷ 1
    ∷ 1
    ∷ 0
    ∷ 1
    ∷ 0
    ∷ 0
    ∷ 0
    ∷ 0
    ∷ 0
    ∷ 0
    ∷ 0
    ∷ 5
    ∷ 0
    ∷ 0
    ∷ 0
    ∷ 0
    ∷ 0
    ∷ 0
    ∷ 0
    ∷ 7
    ∷ 0
    ∷ 0
    ∷ 0
    ∷ 0
    ∷ 0
    ∷ 0
    ∷ 0
    ∷ replicate 8 0

-- The width of one bit again, with the index 1 in the first cell: there is no such entry.
abbrev bad_index_blob : List ℕ
bad_index_blob =
    0x56
    ∷ 0x58
    ∷ 0x42
    ∷ 0x31
    ∷ 1
    ∷ 1
    ∷ 1
    ∷ 0
    ∷ 1
    ∷ 0
    ∷ 0
    ∷ 0
    ∷ 0
    ∷ 0
    ∷ 0
    ∷ 0
    ∷ 5
    ∷ 0
    ∷ 0
    ∷ 0
    ∷ 0
    ∷ 0
    ∷ 0
    ∷ 0
    ∷ 7
    ∷ 0
    ∷ 0
    ∷ 0
    ∷ 0
    ∷ 0
    ∷ 0
    ∷ 0
    ∷ 1
    ∷ replicate 7 0

abbrev bad_index_header : HeaderInfo
bad_index_header = record {
  log2_extent = 1;
  index_bits = 1;
  palette_count = 1;
  cell_count = 8;
  index_words = 1;
  total_bytes = 40;
}

pack_uniform : pack_voxel_blob (replicate 8 stone) 1 ≡ uniform_blob
unfolding pack_voxel_blob emit_blob first_loop probe admit minimal_index_bits put_header put_u32
    put_u64 put_le put_entries
pack_uniform = refl

read_bad_header : read_header bad_index_blob ≡ some bad_index_header
unfolding read_header announced get_u32 get_le legal_index_bits palette_misfits
read_bad_header = refl

unpack_wide : unpack_voxel_blob wide_blob ≡ some uniform_chunk
unfolding unpack_voxel_blob read_header announced get_u32 get_u64 get_le legal_index_bits
    palette_misfits read_palette read_palette_entry read_cells slot_of read_index
unpack_wide = refl

slot_beyond : 1 ≤ slot_of bad_index_blob bad_index_header 0
unfolding slot_of read_index get_u64 get_le
slot_beyond = omega arith

unpack-pack_example : unpack_voxel_blob (pack_voxel_blob small_cells 1) ≡ some small_chunk
unfolding first_appearances
unpack-pack_example = unpack-pack small_cells 1 small-Packable

unpack_rejects_example : unpack_voxel_blob bad_index_blob ≡ none
unpack_rejects_example =
    unpack_rejects bad_index_blob bad_index_header 0 read_bad_header (omega arith) slot_beyond

blob_cell_at_example :
    (c : CellValue) × (get_elem? uniform_chunk.cells
        (morton_encode (record { x = 1; y = 0; z = 1 }))
      ≡ some c)
    × (blob_cell_at wide_blob (record { x = 1; y = 0; z = 1 }) ≡ some c)
blob_cell_at_example =
    blob_cell_at-unpack wide_blob uniform_chunk (record { x = 1; y = 0; z = 1 }) unpack_wide
      (omega arith)

read_header_iff_example :
    (read_header bad_index_blob ≡ some bad_index_header)
    ↔ IsBlobHeader bad_index_blob bad_index_header
read_header_iff_example = read_header_iff bad_index_blob bad_index_header
