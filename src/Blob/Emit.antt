-- ===== src/Blob/Emit.antt =====
-- The blob of a packable chunk, piece by piece: its header, its palette, and its slots.
use native.Mathlib.Nat.{}
use voxel.Base.{
  ℕ, ◌+◌, ◌*◌, ◌/◌, ◌^◌, ◌≤◌, ◌<◌, ◌≡◌, ◌≢◌, sym, ap, subst, ◌∙◌, inl, inr, true, false, arith,
  List, [], ◌++◌, append_assoc, append-nil, length, length-append, get_or, All, All-get_or, some,
  if◌then◌else◌, ◌==◌, Bool-cases, ==_iff,
}
use voxel.Bytes.{get_u64}
use voxel.Blob.{
  CellValue, HeaderInfo, no_cell, put_header, emit_blob, read_header, announced, read_palette_entry,
  slot_of, read_index, cells_of_extent, words_for, minimal_index_bits, legal_index_bits,
  palette_misfits,
}
use voxel.Blob.Palette.{
  palette_of, slots_of, slots_inside, length-slots_of, length-palette_of-le, All-palette_of,
}
use voxel.Blob.Header.{
  IsWellFormed, read_header_accepts, minimal_index_bits_legal, legal_tiles, covers_count,
  uniform_count,
}
use voxel.Blob.Stream.Fields.{field, word_of, place_of}
use voxel.Blob.Stream.{stream_of, field-stream_of, length-stream_of, stream_of-IsU64}
use voxel.Blob.Layout.{
  FitsCell, entries, words, put_entries-entries, put_words-words, length-entries, length-words,
  read_entry, read_word,
}
use voxel.Blob.HeaderBytes.{length-put_header, header_reads, header_count}
use voxel.Blob.Index.{slot_of_lem, word_at, read_index_lem, All-map_lt, word_inside, cube_bounds}

-- What the caller has to supply: an extent that the format has, and that many cells that fit.
pub record Packable (cells : List CellValue) (k : ℕ) : Type 0 where
  pub extent : (1 ≤ k) × (k ≤ 5)
  pub count : length cells ≡ cells_of_extent k
  pub fits : All FitsCell cells

module _ (cells : List CellValue) (k : ℕ) where
  abbrev pub canonical : List CellValue
  canonical = palette_of [] cells

  abbrev pub slots : List ℕ
  slots = slots_of [] cells

  abbrev pub width : ℕ
  width = minimal_index_bits (length canonical)

  abbrev stream : List ℕ
  stream = if width == 0 then [] else stream_of width slots

  abbrev tail_bytes : List ℕ
  tail_bytes = entries canonical ++ words stream

  emit_shape : emit_blob cells k ≡ put_header k width (length canonical) ++ tail_bytes
  unfolding emit_blob
  emit_shape = elim (Bool-cases (width == 0)) [
    | inl uniform ↦
        rw (uniform, append-nil)
          (put_entries-entries (put_header k width (length canonical)) canonical)
    | inr indexed ↦
        rw
          (
            indexed,
            ← length-slots_of [] cells,
            put_entries-entries (put_header k width (length canonical)) canonical,
            put_words-words _ (stream_of width slots),
          )
          (append_assoc (put_header k width (length canonical)) (entries canonical)
            (words (stream_of width slots)))
  ]

  -- The header that the reader finds.
  abbrev pub header : HeaderInfo
  header = record {
    log2_extent = k;
    index_bits = width;
    palette_count = length canonical;
    cell_count = cells_of_extent k;
    index_words = if width == 0 then 0 else words_for (cells_of_extent k) width;
    total_bytes =
        16
        + length canonical * 16
        + (if width == 0 then 0 else words_for (cells_of_extent k) width) * 8;
  }

  module _ (ok : Packable cells k) where
    extent_cases : (cells_of_extent k ≤ 32768) × (8 ≤ cells_of_extent k)
    extent_cases = cube_bounds k ok.extent.0 ok.extent.1

    canonical_count : (1 ≤ length canonical) × (length canonical ≤ cells_of_extent k)
    canonical_count =
        let nonempty : 0 < length slots =
          omega (arith, length-slots_of [] cells, ok.count, extent_cases) in
        omega (
          arith,
          All-get_or (λ s. s < length canonical) slots 0 0 (slots_inside [] cells) nonempty,
          length-palette_of-le [] cells,
          ok.count,
        )

    announced_emit : announced (emit_blob cells k) ≡ header
    unfolding announced
    announced_emit =
        let (m, v, e, b) = header_reads k width (length canonical) tail_bytes in
        rw (emit_shape, e, b, header_count k width (length canonical) tail_bytes small)
      where
        small : length canonical < 2 ^ 32
        small = omega (arith, canonical_count, extent_cases)

    length-stream : length stream ≡ (if width == 0 then 0 else words_for (cells_of_extent k) width)
    length-stream = elim (Bool-cases (width == 0)) [
      | inl uniform ↦ rw uniform
      | inr indexed ↦ rw (indexed, length-stream_of width slots, length-slots_of [] cells, ok.count)
    ]

    length-emit : length (emit_blob cells k) ≡ header.total_bytes
    length-emit =
        rw
          (
            emit_shape,
            length-append (put_header k width (length canonical)) tail_bytes,
            length-append (entries canonical) (words stream),
            length-put_header,
            length-entries canonical,
            length-words stream,
            length-stream,
          )
          (omega arith)

    emit-IsWellFormed : IsWellFormed (emit_blob cells k) header
    emit-IsWellFormed =
        let (m, v, e, b) = header_reads k width (length canonical) tail_bytes in
        let (legal, covers) =
          minimal_index_bits_legal (length canonical) canonical_count.0
            (omega (arith, canonical_count, extent_cases)) in
        record {
          has_header = rw length-emit (omega arith);
          magic = rw emit_shape m;
          version = rw emit_shape v;
          extent = ok.extent;
          width = legal;
          count = canonical_count;
          covers = covers;
          size = length-emit;
        }

    pub read_emit : read_header (emit_blob cells k) ≡ some header
    read_emit =
        read_header_accepts (emit_blob cells k)
          (subst (IsWellFormed (emit_blob cells k)) (sym announced_emit) emit-IsWellFormed)
        ∙ ap some announced_emit

    canonical_fits : All FitsCell canonical
    canonical_fits = All-palette_of FitsCell [] cells tt ok.fits

    pub entry_emit :
        (s : ℕ)
        → s < length canonical
        → read_palette_entry (emit_blob cells k) s ≡ get_or canonical s no_cell
    unfolding read_palette_entry
    entry_emit s h =
        let (content, state) =
          read_entry (put_header k width (length canonical)) canonical (words stream) s
            (16 + s * 16) (rw length-put_header) canonical_fits h in
        rw emit_shape (ground (arith, content, state))

    -- The width is legal and covers the palette.
    width_facts :
        (legal_index_bits width ≡ true) × (palette_misfits width (length canonical) ≡ false)
    width_facts = (emit-IsWellFormed.width, emit-IsWellFormed.covers)

    slot_inside : (j : ℕ) → j < length cells → get_or slots j 0 < length canonical
    slot_inside j h =
        All-get_or (λ s. s < length canonical) slots j 0 (slots_inside [] cells)
          (rw (length-slots_of [] cells) h)

    -- A uniform chunk has a single entry, so each slot is 0.
    uniform_slot : (j : ℕ) → j < length cells → width ≡ 0 → get_or slots j 0 ≡ 0
    uniform_slot j h uniform =
        let covers = width_facts.1 in
        let single : length canonical ≡ 1 = uniform_count _ (rw uniform at covers) in
        omega (arith, slot_inside j h, single)

    indexed_slot :
        (j : ℕ)
        → j < length cells
        → width ≢ 0
        → read_index (emit_blob cells k) header j ≡ get_or slots j 0
    indexed_slot j h indexed =
        read_index_lem (emit_blob cells k) header j (legal_tiles width width_facts.0 indexed).1
        ∙ ap (field width (place_of width j)) word_found
        ∙ field-stream_of width (64 / width) slots j (legal_tiles width width_facts.0 indexed).0
            narrow (rw (length-slots_of [] cells) h)
      where
        off : (width == 0) ≡ false
        off = elim (Bool-cases (width == 0)) [
          | inl e ↦ absurd (indexed ((==_iff width 0).0 e))
          | inr e ↦ e
        ]

        narrow : All (λ x. x < 2 ^ width) slots
        narrow =
            All-map_lt (length canonical) (2 ^ width)
              (covers_count (length canonical) width width_facts.0 indexed width_facts.1) slots
              (slots_inside [] cells)

        shape :
            emit_blob cells k
            ≡ (put_header k width (length canonical) ++ entries canonical)
              ++ (words (stream_of width slots) ++ [])
        shape = emit_shape ∙ rw (off, append-nil, append_assoc)

        in_stream : word_of width j < length (stream_of width slots)
        in_stream =
            rw (length-stream_of width slots)
              (word_inside width j (length slots) (rw (length-slots_of [] cells) h) indexed)

        word_found :
            get_u64 (emit_blob cells k) (word_at header j)
            ≡ get_or (stream_of width slots) (word_of width j) 0
        word_found = rw shape (
            read_word (put_header k width (length canonical) ++ entries canonical)
              (stream_of width slots) [] (word_of width j) (word_at header j)
              (rw (
                length-append (put_header k width (length canonical)) (entries canonical),
                length-put_header,
                length-entries,
              ))
              (stream_of-IsU64 width slots) in_stream)

    pub slot_emit :
        (j : ℕ) → j < length cells → slot_of (emit_blob cells k) header j ≡ get_or slots j 0
    slot_emit j h = slot_of_lem (emit_blob cells k) header j (uniform_slot j h) (indexed_slot j h)
