-- ===== src/Blob/Header.antt =====
-- The header check: `readHeader` accepts exactly the byte vectors that satisfy the rules of the
-- format, and the width that the packer chooses is the least legal one.
use voxel.Base.{
  ℕ, ◌*◌, ◌/◌, ◌^◌, ◌≤◌, ◌≡◌, ◌≢◌, refl, sym, ap, ◌∙◌, subst, ◌↔◌, ◌⊎◌, inl, inr, true, false, not,
  ◌||◌, arith, some, List, length, ltb, ◌==◌, reject->>, some_inj,
}
use voxel.Bytes.{byte_at, get_u32}
use voxel.Blob.{
  HeaderInfo, announced, read_header, legal_index_bits, palette_misfits, minimal_index_bits,
  blob_magic, blob_version, header_bytes,
}
use voxel.Morton.{morton_bits_per_axis}

-- The rules of the format, for the header `h` that the bytes announce.
pub record IsWellFormed (blob : List ℕ) (h : HeaderInfo) : Type 0 where
  pub has_header : header_bytes ≤ length blob
  pub magic : get_u32 blob 0 ≡ blob_magic
  pub version : byte_at blob 4 ≡ blob_version
  pub extent : (1 ≤ h.log2_extent) × (h.log2_extent ≤ morton_bits_per_axis)
  pub width : legal_index_bits h.index_bits ≡ true
  pub count : (1 ≤ h.palette_count) × (h.palette_count ≤ h.cell_count)
  pub covers : palette_misfits h.index_bits h.palette_count ≡ false
  pub size : length blob ≡ h.total_bytes

pub read_header_accepts :
    (blob : List ℕ) → IsWellFormed blob (announced blob) → read_header blob ≡ some (announced blob)
unfolding read_header
read_header_accepts blob w = ground arith

pub read_header_sound :
    (blob : List ℕ) (h : HeaderInfo)
    → read_header blob ≡ some h
    → (announced blob ≡ h) × IsWellFormed blob h
unfolding read_header
read_header_sound blob h e =
    let (r₁, e₁) = reject->> (ltb (length blob) header_bytes) _ e in
    let (r₂, e₂) = reject->> (not (get_u32 blob 0 == blob_magic)) _ e₁ in
    let (r₃, e₃) = reject->> (not (byte_at blob 4 == blob_version)) _ e₂ in
    let a = announced blob in
    let (r₄, e₄) = reject->> (ltb a.log2_extent 1 || ltb morton_bits_per_axis a.log2_extent) _ e₃ in
    let (r₅, e₅) = reject->> (not (legal_index_bits a.index_bits)) _ e₄ in
    let (r₆, e₆) = reject->> (ltb a.palette_count 1 || ltb a.cell_count a.palette_count) _ e₅ in
    let (r₇, e₇) = reject->> (palette_misfits a.index_bits a.palette_count) _ e₆ in
    let (r₈, e₈) = reject->> (not (length blob == a.total_bytes)) _ e₇ in
    let same = some_inj a h e₈ in
    (
      same,
      subst (IsWellFormed blob) same (record {
        has_header = ground arith;
        magic = ground arith;
        version = ground arith;
        extent = (ground arith, ground arith);
        width = ground arith;
        count = (ground arith, ground arith);
        covers = r₇;
        size = ground arith;
      }),
    )

-- The same by the tests of the code.
pub read_header_tests :
    (blob : List ℕ) (h : HeaderInfo)
    → (read_header blob ≡ some h) ↔ ((announced blob ≡ h) × IsWellFormed blob h)
read_header_tests blob h = (
  read_header_sound blob h,
  λ ok. read_header_accepts blob (subst (IsWellFormed blob) (sym ok.0) ok.1) ∙ ap some ok.0,
)

-- A property of the six legal widths is one of every width that passes the test.
pub legal_elim {ℓ} :
    (P : ℕ → Type ℓ)
    → P 0
    → P 1
    → P 2
    → P 4
    → P 8
    → P 16
    → (b : ℕ) → legal_index_bits b ≡ true
    → P b
unfolding legal_index_bits
legal_elim P p₀ p₁ p₂ p₄ p₈ p₁₆ b h = elim (cases h) [
  | inl e ↦ subst P (sym e) p₀
  | inr (inl e) ↦ subst P (sym e) p₁
  | inr (inr (inl e)) ↦ subst P (sym e) p₂
  | inr (inr (inr (inl e))) ↦ subst P (sym e) p₄
  | inr (inr (inr (inr (inl e)))) ↦ subst P (sym e) p₈
  | inr (inr (inr (inr (inr e)))) ↦ subst P (sym e) p₁₆
]
  where
    cases : legal_index_bits b ≡ true → (b ≡ 0) ⊎ (b ≡ 1) ⊎ (b ≡ 2) ⊎ (b ≡ 4) ⊎ (b ≡ 8) ⊎ (b ≡ 16)
    cases e = ground arith

-- The width that the packer chooses is legal and covers the palette.
pub minimal_index_bits_legal :
    (count : ℕ)
    → 1 ≤ count
    → count ≤ 2 ^ 16
    → (legal_index_bits (minimal_index_bits count) ≡ true)
      × (palette_misfits (minimal_index_bits count) count ≡ false)
unfolding minimal_index_bits legal_index_bits palette_misfits
minimal_index_bits_legal count lo hi = (ground arith, ground arith)

-- The width chosen for 1 to 2 ^ 16 palette entries is at most any legal width that passes the
-- header check for them.
pub minimal_index_bits_least :
    (count b : ℕ)
    → 1 ≤ count
    → count ≤ 2 ^ 16
    → legal_index_bits b ≡ true
    → palette_misfits b count ≡ false
    → minimal_index_bits count ≤ b
unfolding minimal_index_bits palette_misfits
minimal_index_bits_least count b lo hi legal =
    legal_elim (λ w. palette_misfits w count ≡ false → minimal_index_bits count ≤ w)
      (λ h. ground arith) (λ h. ground arith) (λ h. ground arith) (λ h. ground arith)
      (λ h. ground arith) (λ h. ground arith) b legal

-- What a legal width other than 0 gives: it divides 64, and its range covers the palette.
pub legal_tiles : (b : ℕ) → legal_index_bits b ≡ true → b ≢ 0 → (64 / b * b ≡ 64) × (b ≤ 16)
legal_tiles =
    legal_elim (λ b. b ≢ 0 → (64 / b * b ≡ 64) × (b ≤ 16)) (λ n. absurd (n refl)) (λ _. omega arith)
      (λ _. omega arith) (λ _. omega arith) (λ _. omega arith) (λ _. omega arith)

pub covers_count :
    (count b : ℕ)
    → legal_index_bits b ≡ true
    → b ≢ 0
    → palette_misfits b count ≡ false
    → count ≤ 2 ^ b
unfolding palette_misfits
covers_count count =
    legal_elim (λ b. b ≢ 0 → palette_misfits b count ≡ false → count ≤ 2 ^ b) (λ n. absurd (n refl))
      (λ _ h. ground arith) (λ _ h. ground arith) (λ _ h. ground arith) (λ _ h. ground arith)
      (λ _ h. ground arith)

pub uniform_count : (count : ℕ) → palette_misfits 0 count ≡ false → count ≡ 1
unfolding palette_misfits
uniform_count count h = ground arith
