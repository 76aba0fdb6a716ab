-- ===== src/Blob/Index.antt =====
-- Lemmas on the readers: one slot, one index, and the two loops of `unpackVoxelBlob`, over a
-- vector in which the right things are found.
use native.Mathlib.Nat.{
  mod-eq_of_lt, mod-lt, one-le-pow, pow-le-pow_right, lt_of_lt_of_le, mul-le-mul_right, suc-mul,
}
use mathlib.Core.Path.{ap₂}
use voxel.Base.{
  ℕ, zero, suc, ◌+◌, ◌*◌, ◌/◌, ◌%◌, ◌^◌, ◌≤◌, ◌<◌, ◌≡◌, ◌≢◌, refl, inl, inr, false, arith, List, [],
  ◌∷◌, map, length, get_or, All, some, leb, ◌==◌, Bool-cases, ==_iff,
}
use voxel.Base.Bits.{bit_and_mask}
use voxel.Bytes.{get_u64}
use voxel.Blob.{
  CellValue, HeaderInfo, no_cell, read_palette, read_palette_entry, read_cells, slot_of, read_index,
  cells_of_extent, words_for,
}
use voxel.Blob.Palette.{look_up}
use voxel.Blob.Stream.Fields.{field, word_of, place_of}

pub slot_of_lem :
    (blob : List ℕ) (h : HeaderInfo) (j : ℕ) {x : ℕ}
    → (h.index_bits ≡ 0 → x ≡ 0)
    → (h.index_bits ≢ 0 → read_index blob h j ≡ x)
    → slot_of blob h j ≡ x
unfolding slot_of
slot_of_lem blob h j uniform indexed = elim (Bool-cases (h.index_bits == 0)) [
  | inl e ↦ ground (arith, uniform ((==_iff h.index_bits 0).0 e))
  | inr e ↦ ground (arith, indexed (λ z. cc (e, (==_iff h.index_bits 0).1 z)))
]

-- Where the word that holds entry `j` stands.
abbrev pub word_at : HeaderInfo → ℕ → ℕ
word_at h j = 16 + h.palette_count * 16 + word_of h.index_bits j * 8

pub read_index_lem :
    (blob : List ℕ) (h : HeaderInfo) (j : ℕ)
    → h.index_bits ≤ 16
    → read_index blob h j
      ≡ field h.index_bits (place_of h.index_bits j) (get_u64 blob (word_at h j))
unfolding read_index
read_index_lem blob h j narrow =
    let b = h.index_bits in
    let x = get_u64 blob (word_at h j) / 2 ^ place_of b j in
    let top : 2 ^ b ≤ 2 ^ 32 =
      pow-le-pow_right {n = 2} (omega arith) {i = b} {j = 32} (omega arith) in
    let small : x % 2 ^ b < 2 ^ 32 = lt_of_lt_of_le (mod-lt x (one-le-pow b 2 (omega arith))) top in
    ground (arith, bit_and_mask b x, mod-eq_of_lt small)

pub All-map_lt : (m n : ℕ) → m ≤ n → (xs : List ℕ) → All (λ x. x < m) xs → All (λ x. x < n) xs
All-map_lt m n h [] a = tt
All-map_lt m n h (x ∷ xs) a = (omega arith, All-map_lt m n h xs a.1)

pub word_inside : (bits j n : ℕ) → j < n → bits ≢ 0 → word_of bits j < words_for n bits
word_inside bits j n h pos = omega (arith, mul-le-mul_right bits h, suc-mul j bits)

pub cube_bounds : (k : ℕ) → 1 ≤ k → k ≤ 5 → (cells_of_extent k ≤ 32768) × (8 ≤ cells_of_extent k)
cube_bounds zero lo hi = absurd (omega arith)
cube_bounds (suc zero) lo hi = omega arith
cube_bounds (suc (suc zero)) lo hi = omega arith
cube_bounds (suc (suc (suc zero))) lo hi = omega arith
cube_bounds (suc (suc (suc (suc zero)))) lo hi = omega arith
cube_bounds (suc (suc (suc (suc (suc zero))))) lo hi = omega arith
cube_bounds (suc (suc (suc (suc (suc (suc k)))))) lo hi = absurd (omega arith)

-- The reader's loops, over a vector in which the right things are found.
pub read_palette_lem :
    (blob : List ℕ) (palette : List CellValue) (s : ℕ)
    → ((i : ℕ) → i < length palette → read_palette_entry blob (s + i) ≡ get_or palette i no_cell)
    → read_palette blob (length palette) s ≡ palette
unfolding read_palette
read_palette_lem blob [] s h = refl
read_palette_lem blob (p ∷ palette) s h =
    let e : s + 0 ≡ s = omega arith in
    ap₂ ◌∷◌ (rw e at (h 0 (omega arith))) (
      read_palette_lem blob palette (s + 1)
        (λ i lt. let f : s + 1 + i ≡ s + suc i = omega arith in rw f (h (suc i) (omega arith))))

pub read_cells_lem :
    (blob : List ℕ) (h : HeaderInfo) (palette : List CellValue) (slots : List ℕ) (i : ℕ)
    → All (λ s. s < h.palette_count) slots
    → ((j : ℕ) → j < length slots → slot_of blob h (i + j) ≡ get_or slots j 0)
    → read_cells blob h palette (length slots) i ≡ some (map (look_up palette) slots)
unfolding read_cells
read_cells_lem blob h palette [] i inside found = refl
read_cells_lem blob h palette (s ∷ slots) i (lt, inside) found =
    let e : i + 0 ≡ i = omega arith in
    let here : slot_of blob h i ≡ s = rw e at (found 0 (omega arith)) in
    let fits : leb h.palette_count s ≡ false = ground arith in
    rw (
      here,
      fits,
      read_cells_lem blob h palette slots (i + 1) inside (λ j l.
          let f : i + 1 + j ≡ i + suc j = omega arith in rw f (found (suc j) (omega arith))),
    )
