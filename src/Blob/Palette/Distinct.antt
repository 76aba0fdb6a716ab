-- ===== src/Blob/Palette/Distinct.antt =====
-- The packer's palette against its specification: the distinct cells, by first appearance.
use voxel.Base.{
  ◌<◌, ◌≡◌, refl, sym, subst, ap, ◌∙◌, false, inl, inr, arith, List, [], ◌∷◌, ◌++◌, append_assoc,
  append-nil, length, if◌then◌else◌, Bool-cases,
}
use voxel.Blob.{CellValue, cell_eq, probe, first_loop}
use voxel.Blob.Palette.{palette_of, admit-cases, cell_eq→eq, cell_eq_refl}

-- The specification: each cell once, where it appears first.
abbrev pub without : CellValue → List CellValue → List CellValue
without c [] = []
without c (x ∷ xs) = if cell_eq x c then without c xs else x ∷ without c xs

unfoldable pub first_appearances : List CellValue → List CellValue
first_appearances [] = []
first_appearances (c ∷ cells) = c ∷ without c (first_appearances cells)

without_all : List CellValue → List CellValue → List CellValue
without_all [] xs = xs
without_all (p ∷ palette) xs = without_all palette (without p xs)

without_twice : (c : CellValue) (xs : List CellValue) → without c (without c xs) ≡ without c xs
without_twice c [] = refl
without_twice c (x ∷ xs) = ground (arith, without_twice c xs)

without_comm :
    (c d : CellValue) (xs : List CellValue) → without c (without d xs) ≡ without d (without c xs)
without_comm c d [] = refl
without_comm c d (x ∷ xs) = ground (arith, without_comm c d xs)

without_all-without :
    (palette : List CellValue) (c : CellValue) (xs : List CellValue)
    → without_all (palette ++ (c ∷ [])) xs ≡ without_all palette (without c xs)
unfolding without_all
without_all-without [] c xs = refl
without_all-without (p ∷ palette) c xs =
    without_all-without palette c (without p xs) ∙ ap (without_all palette) (without_comm c p xs)

-- A cell that the palette has plays no part in what is left.
abbrev Skips : List CellValue → CellValue → List CellValue → Type 0
Skips palette c xs =
    (without_all palette (c ∷ xs) ≡ without_all palette xs)
    × (without_all palette (without c xs) ≡ without_all palette xs)

Skips-cons :
    (palette : List CellValue) (c : CellValue) (xs : List CellValue) → Skips (c ∷ palette) c xs
unfolding without_all
Skips-cons palette c xs = rw (cell_eq_refl c, without_twice c xs) (refl, refl)

without_all_known :
    (palette : List CellValue) (c : CellValue) (xs : List CellValue)
    → probe palette c < length palette
    → Skips palette c xs
unfolding without_all probe
without_all_known [] c xs h = elim h [ ]
without_all_known (p ∷ palette) c xs h = elim (Bool-cases (cell_eq p c)) [
  | inl same ↦
      subst (λ q. Skips (q ∷ palette) c xs) (sym (cell_eq→eq p c same)) (Skips-cons palette c xs)
  | inr other ↦
      let apart : cell_eq c p ≡ false = ground arith in
      let (skip, drop) = without_all_known palette c (without p xs) (ground arith) in
      rw (apart, without_comm p c xs) (skip, drop)
]

without_all_new :
    (palette : List CellValue) (c : CellValue) (xs : List CellValue)
    → probe palette c ≡ length palette
    → without_all palette (c ∷ xs) ≡ c ∷ without_all palette xs
unfolding without_all probe
without_all_new [] c xs h = refl
without_all_new (p ∷ palette) c xs h = ground (arith, without_all_new palette c (without p xs))

without_all_nil : (palette : List CellValue) → without_all palette [] ≡ []
unfolding without_all
without_all_nil [] = refl
without_all_nil (p ∷ palette) = without_all_nil palette

palette_of_distinct :
    (palette cells : List CellValue)
    → palette_of palette cells ≡ palette ++ without_all palette (first_appearances cells)
unfolding first_loop first_appearances
palette_of_distinct palette [] = rw (without_all_nil palette, append-nil)
palette_of_distinct palette (c ∷ cells) = elim (admit-cases palette c) [
  | inl (known, e) ↦
      let (skip, drop) = without_all_known palette c (first_appearances cells) known in
      let (skip', _) = without_all_known palette c (without c (first_appearances cells)) known in
      rw (e, skip', drop) (palette_of_distinct palette cells)
  | inr (new, e) ↦ rw (
    e,
    without_all_new palette c (without c (first_appearances cells)) new,
    palette_of_distinct (palette ++ (c ∷ [])) cells,
    without_all-without palette c (first_appearances cells),
    append_assoc,
  )
]

-- The palette of the packer lists every distinct cell once, in the order of first appearance.
pub palette-first_appearances :
    (cells : List CellValue) → palette_of [] cells ≡ first_appearances cells
unfolding without_all
palette-first_appearances cells = palette_of_distinct [] cells
