-- ===== src/Blob.antt =====
-- src/world/voxel_blob.hpp: the palette-compressed chunk blob (Contract 1). Cells come in Morton
-- order; a blob is a byte vector. The reserved header bytes and the flags are written as 0 and not
-- read back. `std::size_t` sums stay far below 2 ^ 64, as the header check bounds every factor.
pub mod Palette
pub mod Stream
pub mod Header
pub mod Format
pub mod Layout
pub mod HeaderBytes
pub mod Index
pub mod Emit
pub mod RoundTrip
pub mod Access
pub mod Repack
mod Examples
use voxel.Base.{
  ℕ, zero, suc, ◌+◌, ◌-◌, ◌*◌, ◌/◌, ◌%◌, ◌^◌, bit_and, bit_or, Bool, true, false, not, ◌&&◌, ◌||◌,
  Option, none, some, List, [], ◌∷◌, ◌++◌, length, get_or, set, replicate, ltb, leb, ◌==◌,
  if◌then◌else◌, ◌>>=◌, ◌>>◌, reject,
}
use voxel.Bytes.{byte_at, put_u32, put_u64, get_u32, get_u64}
use voxel.Morton.{LocalPos, morton_encode, morton_bits_per_axis}

pub record CellValue : Type 0 where
  pub content : ℕ
  pub state : ℕ

-- The defaulted `operator==`.
abbrev pub cell_eq : CellValue → CellValue → Bool
cell_eq a b = a.content == b.content && a.state == b.state

abbrev pub no_cell : CellValue
no_cell = record { content = 0; state = 0 }

pub record UnpackedChunk : Type 0 where
  pub log2_extent : ℕ
  pub palette : List CellValue
  pub cells : List CellValue

abbrev pub blob_magic : ℕ
blob_magic = 0x31425856

abbrev pub blob_version : ℕ
blob_version = 1

abbrev pub header_bytes : ℕ
header_bytes = 16

abbrev pub entry_bytes : ℕ
entry_bytes = 16

unfoldable pub legal_index_bits : ℕ → Bool
legal_index_bits bits =
    bits == 0 || (bits == 1 || (bits == 2 || (bits == 4 || (bits == 8 || bits == 16))))

unfoldable pub minimal_index_bits : ℕ → ℕ
minimal_index_bits count =
    if leb count 1
    then 0
    else if leb count 2
    then 1
    else if leb count 4
    then 2
    else if leb count 16
    then 4
    else if leb count 256
    then 8
    else 16

pub record HeaderInfo : Type 0 where
  pub log2_extent : ℕ
  pub index_bits : ℕ
  pub palette_count : ℕ
  pub cell_count : ℕ
  pub index_words : ℕ
  pub total_bytes : ℕ

-- `extent * extent * extent` with `extent = 1 << log2Extent`.
abbrev pub cells_of_extent : ℕ → ℕ
cells_of_extent log2_extent = 2 ^ log2_extent * 2 ^ log2_extent * 2 ^ log2_extent

-- `(cellCount * bits + 63) / 64`
abbrev pub words_for : ℕ → ℕ → ℕ
words_for cell_count bits = (cell_count * bits + 63) / 64

-- The branch `h.indexBits == 0` of the palette check, and its `else`.
unfoldable pub palette_misfits : ℕ → ℕ → Bool
palette_misfits index_bits palette_count =
    if index_bits == 0
    then not (palette_count == 1)
    else ltb index_bits 64 && ltb (2 ^ index_bits % 2 ^ 64) palette_count

-- The header that the bytes announce; `read_header` checks it.
unfoldable pub announced : List ℕ → HeaderInfo
announced blob =
    let bits = byte_at blob 6 in
    let count = get_u32 blob 8 in
    let cells = cells_of_extent (byte_at blob 5) in
    let words = if bits == 0 then 0 else words_for cells bits in
    record {
      log2_extent = byte_at blob 5;
      index_bits = bits;
      palette_count = count;
      cell_count = cells;
      index_words = words;
      total_bytes = header_bytes + count * entry_bytes + words * 8;
    }

unfoldable pub read_header : List ℕ → Option HeaderInfo
read_header blob = do
  reject (ltb (length blob) header_bytes)
  reject (not (get_u32 blob 0 == blob_magic))
  reject (not (byte_at blob 4 == blob_version))
  let h = announced blob
  reject (ltb h.log2_extent 1 || ltb morton_bits_per_axis h.log2_extent)
  reject (not (legal_index_bits h.index_bits))
  reject (ltb h.palette_count 1 || ltb h.cell_count h.palette_count)
  reject (palette_misfits h.index_bits h.palette_count)
  reject (not (length blob == h.total_bytes))
  some h

unfoldable pub read_palette_entry : List ℕ → ℕ → CellValue
read_palette_entry blob slot =
    let at = header_bytes + slot * entry_bytes in
    record { content = get_u32 blob at; state = get_u64 blob (at + 8) }

unfoldable pub read_index : List ℕ → HeaderInfo → ℕ → ℕ
read_index blob h cell =
    let bit_at = cell * h.index_bits in
    let word_at = header_bytes + h.palette_count * entry_bytes + bit_at / 64 * 8 in
    let word = get_u64 blob word_at in
    let mask = if leb 64 h.index_bits then 2 ^ 64 - 1 else 2 ^ h.index_bits - 1 in
    bit_and (word / 2 ^ (bit_at % 64)) mask % 2 ^ 32

-- The probe `for (; slot < n; ++slot) if (palette[slot] == cells[i]) break;`.
unfoldable pub probe : List CellValue → CellValue → ℕ
probe [] cell = 0
probe (entry ∷ palette) cell = if cell_eq entry cell then 0 else suc (probe palette cell)

-- The palette after one cell.
unfoldable pub admit : List CellValue → CellValue → List CellValue
admit palette cell =
    if probe palette cell == length palette then palette ++ (cell ∷ []) else palette

-- The first loop of the packer: the palette that it ends with, and `indices`.
unfoldable pub first_loop : List CellValue → List CellValue → List CellValue × List ℕ
first_loop palette [] = (palette, [])
first_loop palette (cell ∷ cells) =
    let (final, slots) = first_loop (admit palette cell) cells in
    (final, probe palette cell ∷ slots)

-- `stream[bitAt / 64] |= static_cast<u64>(indices[i]) << (bitAt % 64)`
unfoldable pub write_index : ℕ → ℕ → ℕ → List ℕ → List ℕ
write_index bits i slot stream =
    let bit_at = i * bits in
    let word = bit_at / 64 in
    set stream word (bit_or (get_or stream word 0) (slot * 2 ^ (bit_at % 64) % 2 ^ 64))

-- The loop over the indices from `i` on.
unfoldable pub write_indices : ℕ → ℕ → List ℕ → List ℕ → List ℕ
write_indices bits i [] stream = stream
write_indices bits i (slot ∷ slots) stream =
    write_indices bits (i + 1) slots (write_index bits i slot stream)

unfoldable pub put_entries : List ℕ → List CellValue → List ℕ
put_entries out [] = out
put_entries out (e ∷ palette) =
    put_entries (put_u64 (put_u32 (put_u32 out e.content) 0) e.state) palette

unfoldable pub put_words : List ℕ → List ℕ → List ℕ
put_words out [] = out
put_words out (w ∷ words) = put_words (put_u64 out w) words

unfoldable pub put_header : ℕ → ℕ → ℕ → List ℕ
put_header log2_extent bits count =
    let start = put_u32 [] blob_magic in
    let fields = start ++ (blob_version ∷ log2_extent ∷ bits ∷ 0 ∷ []) in
    put_u32 (put_u32 fields (count % 2 ^ 32)) 0

-- What the packer emits once its argument checks have passed.
unfoldable pub emit_blob : List CellValue → ℕ → List ℕ
emit_blob cells log2_extent =
    let (palette, slots) = first_loop [] cells in
    let bits = minimal_index_bits (length palette) in
    let out = put_entries (put_header log2_extent bits (length palette)) palette in
    let stream = write_indices bits 0 slots (replicate (words_for (length cells) bits) 0) in
    if bits == 0 then out else put_words out stream

unfoldable pub pack_voxel_blob : List CellValue → ℕ → List ℕ
pack_voxel_blob cells log2_extent =
    if ltb log2_extent 1 || ltb morton_bits_per_axis log2_extent
    then []
    else if not (length cells == cells_of_extent log2_extent)
    then []
    else emit_blob cells log2_extent

-- `for (s …) chunk.palette.push_back(readPaletteEntry(blob, s))`, with the rounds that are left.
unfoldable pub read_palette : List ℕ → ℕ → ℕ → List CellValue
read_palette blob zero s = []
read_palette blob (suc n) s = read_palette_entry blob s ∷ read_palette blob n (s + 1)

-- The slot of a cell: no stream is there for a uniform chunk.
unfoldable pub slot_of : List ℕ → HeaderInfo → ℕ → ℕ
slot_of blob h cell = if h.index_bits == 0 then 0 else read_index blob h cell

-- The loop over the cells from `i` on.
unfoldable pub read_cells : List ℕ → HeaderInfo → List CellValue → ℕ → ℕ → Option (List CellValue)
read_cells blob h palette zero i = some []
read_cells blob h palette (suc n) i = do
  reject (leb h.palette_count (slot_of blob h i))
  cells ← read_cells blob h palette n (i + 1)
  some (get_or palette (slot_of blob h i) no_cell ∷ cells)

unfoldable pub unpack_voxel_blob : List ℕ → Option UnpackedChunk
unpack_voxel_blob blob = do
  h ← read_header blob
  let palette = read_palette blob h.palette_count 0
  cells ← read_cells blob h palette h.cell_count 0
  some (record { log2_extent = h.log2_extent; palette = palette; cells = cells })

unfoldable pub blob_cell_at : List ℕ → LocalPos → Option CellValue
blob_cell_at blob pos = do
  h ← read_header blob
  let extent = 2 ^ h.log2_extent
  reject (leb extent pos.x || (leb extent pos.y || leb extent pos.z))
  let slot = slot_of blob h (morton_encode pos)
  reject (leb h.palette_count slot)
  some (read_palette_entry blob slot)
