-- ===== src/Blob/Format.antt =====
-- The header of the format, field by field, and that `readHeader` accepts exactly it.
use voxel.Base.{
  ℕ, zero, suc, ◌+◌, ◌*◌, ◌^◌, ◌≤◌, ◌<◌, ◌≡◌, refl, sym, ap, ◌∙◌, subst, ◌↔◌, ◌⊎◌, true, false,
  some, List, arith, ◌==◌, if◌then◌else◌, length,
}
use voxel.Bytes.{byte_at, get_u32}
use voxel.Blob.{
  HeaderInfo, announced, read_header, legal_index_bits, palette_misfits, cells_of_extent, words_for,
}
use voxel.Blob.Header.{IsWellFormed, read_header_accepts, read_header_sound, legal_elim}

-- The words of 64 bits that hold so many bits.
abbrev pub AreWordsFor : ℕ → ℕ → Type 0
AreWordsFor bits words = (bits ≤ words * 64) × (words * 64 < bits + 64)

-- The format: where each field stands, and what holds of the fields and of the length.
pub record IsBlobHeader (blob : List ℕ) (h : HeaderInfo) : Type 0 where
  pub magic : get_u32 blob 0 ≡ 0x31425856
  pub version : byte_at blob 4 ≡ 1
  pub extent_at : h.log2_extent ≡ byte_at blob 5
  pub bits_at : h.index_bits ≡ byte_at blob 6
  pub count_at : h.palette_count ≡ get_u32 blob 8
  pub extent : (1 ≤ h.log2_extent) × (h.log2_extent ≤ 5)
  pub cells : h.cell_count ≡ 8 ^ h.log2_extent
  pub width :
      (h.index_bits ≡ 0)
      ⊎ (h.index_bits ≡ 1)
      ⊎ (h.index_bits ≡ 2)
      ⊎ (h.index_bits ≡ 4)
      ⊎ (h.index_bits ≡ 8)
      ⊎ (h.index_bits ≡ 16)
  pub count : (1 ≤ h.palette_count) × (h.palette_count ≤ h.cell_count)
  pub covers : h.palette_count ≤ 2 ^ h.index_bits
  pub words : AreWordsFor (h.cell_count * h.index_bits) h.index_words
  pub total : h.total_bytes ≡ 16 + h.palette_count * 16 + h.index_words * 8
  pub size : length blob ≡ h.total_bytes

cells_cubed : (l : ℕ) → 1 ≤ l → l ≤ 5 → cells_of_extent l ≡ 8 ^ l
cells_cubed zero lo hi = absurd (omega arith)
cells_cubed (suc zero) lo hi = refl
cells_cubed (suc (suc zero)) lo hi = refl
cells_cubed (suc (suc (suc zero))) lo hi = refl
cells_cubed (suc (suc (suc (suc zero)))) lo hi = refl
cells_cubed (suc (suc (suc (suc (suc zero))))) lo hi = refl
cells_cubed (suc (suc (suc (suc (suc (suc l)))))) lo hi = absurd (omega arith)

enough_words : (c b : ℕ) → AreWordsFor (c * b) (if b == 0 then 0 else words_for c b)
enough_words c zero = (omega arith, omega arith)
enough_words c (suc b) =
    let nonzero : (suc b == 0) ≡ false = ground arith in rw nonzero (omega arith, omega arith)

words_unique : (bits v w : ℕ) → AreWordsFor bits v → AreWordsFor bits w → v ≡ w
words_unique bits v w h g = omega arith

width_cases :
    (b : ℕ)
    → (legal_index_bits b ≡ true) ↔ ((b ≡ 0) ⊎ (b ≡ 1) ⊎ (b ≡ 2) ⊎ (b ≡ 4) ⊎ (b ≡ 8) ⊎ (b ≡ 16))
unfolding legal_index_bits
width_cases b = ground arith

covers_iff :
    (c b : ℕ) → 1 ≤ c → legal_index_bits b ≡ true → (palette_misfits b c ≡ false) ↔ (c ≤ 2 ^ b)
unfolding palette_misfits
covers_iff c b lo =
    legal_elim (λ w. (palette_misfits w c ≡ false) ↔ (c ≤ 2 ^ w)) (ground arith) (ground arith)
      (ground arith) (ground arith) (ground arith) (ground arith) b

format_of :
    (blob : List ℕ) → IsWellFormed blob (announced blob) → IsBlobHeader blob (announced blob)
unfolding announced
format_of blob w = record {
  magic = w.magic;
  version = w.version;
  extent_at = refl;
  bits_at = refl;
  count_at = refl;
  extent = w.extent;
  cells = cells_cubed (byte_at blob 5) w.extent.0 w.extent.1;
  width = (width_cases (byte_at blob 6)).0 w.width;
  count = w.count;
  covers = (covers_iff (get_u32 blob 8) (byte_at blob 6) w.count.0 w.width).0 w.covers;
  words = enough_words (cells_of_extent (byte_at blob 5)) (byte_at blob 6);
  total = refl;
  size = w.size;
}

abbrev header_with : ℕ → ℕ → ℕ → ℕ → ℕ → ℕ → HeaderInfo
header_with l b c n w t = record {
  log2_extent = l;
  index_bits = b;
  palette_count = c;
  cell_count = n;
  index_words = w;
  total_bytes = t;
}

same_header :
    (l b c n w t l' b' c' n' w' t' : ℕ)
    → l ≡ l'
    → b ≡ b'
    → c ≡ c'
    → n ≡ n'
    → w ≡ w'
    → t ≡ t'
    → header_with l b c n w t ≡ header_with l' b' c' n' w' t'
same_header l b c n w t l' b' c' n' w' t' p q r s u v = rw (p, q, r, s, u, v) refl

-- The header of the format is the one that the bytes announce.
format-announced : (blob : List ℕ) (h : HeaderInfo) → IsBlobHeader blob h → announced blob ≡ h
unfolding announced
format-announced blob h f =
    let l = byte_at blob 5 in
    let b = byte_at blob 6 in
    let lo : 1 ≤ l = subst (λ x. 1 ≤ x) f.extent_at f.extent.0 in
    let hi : l ≤ 5 = subst (λ x. x ≤ 5) f.extent_at f.extent.1 in
    let cells : cells_of_extent l ≡ h.cell_count =
      cells_cubed l lo hi ∙ ap (λ x. 8 ^ x) (sym f.extent_at) ∙ sym f.cells in
    let enough : AreWordsFor (h.cell_count * h.index_bits)
        (if b == 0 then 0 else words_for (cells_of_extent l) b) =
      rw (← cells, f.bits_at) (enough_words (cells_of_extent l) b) in
    let words = words_unique _ _ _ enough f.words in
    same_header l b (get_u32 blob 8) (cells_of_extent l) _ _ h.log2_extent h.index_bits
      h.palette_count h.cell_count h.index_words h.total_bytes (sym f.extent_at) (sym f.bits_at)
      (sym f.count_at) cells words (rw (words, ← f.count_at) (sym f.total))

accepts_format : (blob : List ℕ) (h : HeaderInfo) → IsBlobHeader blob h → IsWellFormed blob h
accepts_format blob h f =
    let legal = (width_cases h.index_bits).1 f.width in
    record {
      has_header = let t = f.total in let s = f.size in omega arith;
      magic = f.magic;
      version = f.version;
      extent = f.extent;
      width = legal;
      count = f.count;
      covers = (covers_iff h.palette_count h.index_bits f.count.0 legal).1 f.covers;
      size = f.size;
    }

-- `readHeader` accepts a byte vector exactly when it is a blob of the format: with the magic number
-- and the version, an extent of 1 to 5, an index width of 0, 1, 2, 4, 8 or 16, a palette that is not
-- empty, not larger than the number of cells and in reach of the width, and exactly the bytes of the
-- header, the palette and the words that the indices need. It returns those figures.
pub read_header_iff :
    (blob : List ℕ) (h : HeaderInfo) → (read_header blob ≡ some h) ↔ IsBlobHeader blob h
read_header_iff blob h = (
  λ e.
      let (same, w) = read_header_sound blob h e in
      subst (IsBlobHeader blob) same (format_of blob (subst (IsWellFormed blob) (sym same) w)),
  λ f.
      let same = format-announced blob h f in
      read_header_accepts blob (subst (IsWellFormed blob) (sym same) (accepts_format blob h f))
      ∙ ap some same,
)
