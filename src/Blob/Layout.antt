-- ===== src/Blob/Layout.antt =====
-- Where the packer puts what: a header of 16 bytes, 16 bytes for each palette entry and 8 for each
-- word of the stream, and what the readers find there.
use voxel.Base.{
  ℕ, zero, suc, ◌+◌, ◌*◌, ◌^◌, ◌<◌, ◌≡◌, refl, sym, ◌∙◌, arith, List, [], ◌∷◌, ◌++◌, append_assoc,
  append-nil, length, length-append, get_or, All,
}
use voxel.Bytes.{put_le, put_u32, put_u64, get_u32, get_u64}
use voxel.Bytes.Laws.{length-put_le, get_u32-put_le, get_u64-put_le}
use voxel.Blob.{CellValue, no_cell, put_entries, put_words}

-- A cell whose fields fit their words.
abbrev pub FitsCell : CellValue → Type 0
FitsCell c = (c.content < 2 ^ 32) × (c.state < 2 ^ 64)

-- The 16 bytes of an entry.
abbrev pub entry : CellValue → List ℕ
entry e = put_le 4 0 e.content ++ (put_le 4 0 0 ++ put_le 8 0 e.state)

abbrev pub entries : List CellValue → List ℕ
entries [] = []
entries (e ∷ palette) = entry e ++ entries palette

abbrev pub words : List ℕ → List ℕ
words [] = []
words (w ∷ ws) = put_le 8 0 w ++ words ws

pub put_entries-entries :
    (out : List ℕ) (palette : List CellValue) → put_entries out palette ≡ out ++ entries palette
unfolding put_entries put_u32 put_u64
put_entries-entries out [] = sym (append-nil out)
put_entries-entries out (e ∷ palette) =
    put_entries-entries (put_u64 (put_u32 (put_u32 out e.content) 0) e.state) palette
    ∙ simp append_assoc

pub put_words-words : (out ws : List ℕ) → put_words out ws ≡ out ++ words ws
unfolding put_words put_u64
put_words-words out [] = sym (append-nil out)
put_words-words out (w ∷ ws) = put_words-words (put_u64 out w) ws ∙ simp append_assoc

length-entry : (e : CellValue) → length (entry e) ≡ 16
length-entry e = simp (length-append, length-put_le)

pub length-entries : (palette : List CellValue) → length (entries palette) ≡ length palette * 16
length-entries [] = refl
length-entries (e ∷ palette) =
    omega (arith, length-append (entry e) (entries palette), length-entry e, length-entries palette)

pub length-words : (ws : List ℕ) → length (words ws) ≡ length ws * 8
length-words [] = refl
length-words (w ∷ ws) =
    omega (arith, length-append (put_le 8 0 w) (words ws), length-put_le 8 0 w, length-words ws)

-- Entry `s` of the palette is read where the packer put it.
pub read_entry :
    (front : List ℕ) (palette : List CellValue) (back : List ℕ) (s at : ℕ)
    → at ≡ length front + s * 16
    → All FitsCell palette
    → s < length palette
    → (get_u32 (front ++ (entries palette ++ back)) at ≡ (get_or palette s no_cell).content)
      × (get_u64 (front ++ (entries palette ++ back)) (at + 8) ≡ (get_or palette s no_cell).state)
read_entry front [] back s at e a h = elim h [ ]
read_entry front (p ∷ palette) back zero at e (fits, a) h = (
  rw first (get_u32-put_le p.content front _ at (omega arith) fits.0),
  rw second (
      get_u64-put_le p.state (front ++ (put_le 4 0 p.content ++ put_le 4 0 0)) _ (at + 8)
        (omega (
          arith,
          length-append front (put_le 4 0 p.content ++ put_le 4 0 0),
          length-append (put_le 4 0 p.content) (put_le 4 0 0),
          length-put_le 4 0 p.content,
          length-put_le 4 0 0,
        ))
        fits.1),
)
  where
    all : List ℕ
    all = front ++ (entries (p ∷ palette) ++ back)

    first :
        all
        ≡ front
          ++ (put_le 4 0 p.content
              ++ (put_le 4 0 0 ++ (put_le 8 0 p.state ++ (entries palette ++ back))))
    first = simp append_assoc

    second :
        all
        ≡ (front ++ (put_le 4 0 p.content ++ put_le 4 0 0))
          ++ (put_le 8 0 p.state ++ (entries palette ++ back))
    second = simp append_assoc
read_entry front (p ∷ palette) back (suc s) at e (fits, a) h =
    rw
      (
        append_assoc (entry p) (entries palette) back,
        ← append_assoc front (entry p) (entries palette ++ back),
      )
      (read_entry (front ++ entry p) palette back s at
        (omega (arith, length-append front (entry p), length-entry p)) a (omega arith))

pub read_word :
    (front ws back : List ℕ) (i at : ℕ)
    → at ≡ length front + i * 8
    → All (λ w. w < 2 ^ 64) ws
    → i < length ws
    → get_u64 (front ++ (words ws ++ back)) at ≡ get_or ws i 0
read_word front [] back i at e a h = elim h [ ]
read_word front (w ∷ ws) back zero at e (fits, a) h =
    rw (append_assoc (put_le 8 0 w) (words ws) back)
      (get_u64-put_le w front (words ws ++ back) at (omega arith) fits)
read_word front (w ∷ ws) back (suc i) at e (fits, a) h =
    rw
      (
        append_assoc (put_le 8 0 w) (words ws) back,
        ← append_assoc front (put_le 8 0 w) (words ws ++ back),
      )
      (read_word (front ++ put_le 8 0 w) ws back i at
        (omega (arith, length-append front (put_le 8 0 w), length-put_le 8 0 w)) a (omega arith))
