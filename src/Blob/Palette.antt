-- ===== src/Blob/Palette.antt =====
-- The first loop of the packer: its palette lists the distinct cells in the order of their first
-- appearance, and each slot that it stores leads back to the cell.
pub mod Distinct
use voxel.Base.{
  ℕ, zero, suc, ◌+◌, ◌≤◌, ◌<◌, ◌≡◌, refl, sym, ap, ◌∙◌, Bool, true, false, ◌⊎◌, inl, inr, arith,
  List, [], ◌∷◌, ◌++◌, append_assoc, append-nil, map, length, length-append, get_or,
  get_or-append_left, All, All-append, ltb, ◌==◌, ==_iff, if◌then◌else◌, Bool-cases,
}
use mathlib.Core.Path.{ap₂}
use voxel.Blob.{CellValue, cell_eq, no_cell, probe, admit, first_loop}

abbrev pub palette_of : List CellValue → List CellValue → List CellValue
palette_of palette cells = (first_loop palette cells).0

abbrev pub slots_of : List CellValue → List CellValue → List ℕ
slots_of palette cells = (first_loop palette cells).1

pub cell_eq→eq : (a b : CellValue) → cell_eq a b ≡ true → a ≡ b
cell_eq→eq a b h = ground arith

pub cell_eq_refl : (a : CellValue) → cell_eq a a ≡ true
cell_eq_refl a = ground arith

pub probe-le : (palette : List CellValue) (cell : CellValue) → probe palette cell ≤ length palette
unfolding probe
probe-le [] cell = omega arith
probe-le (e ∷ palette) cell = ground (arith, probe-le palette cell)

-- A probe that stops inside of the palette has found the cell.
pub get_or-probe :
    (palette : List CellValue) (cell : CellValue)
    → probe palette cell < length palette
    → get_or palette (probe palette cell) no_cell ≡ cell
unfolding probe
get_or-probe [] cell h = elim h [ ]
get_or-probe (e ∷ palette) cell h = elim (Bool-cases (cell_eq e cell)) [
  | inl same ↦ rw same (cell_eq→eq e cell same)
  | inr other ↦ rw other (get_or-probe palette cell (omega (arith, rw other at h)))
]

probe-append :
    (palette more : List CellValue) (cell : CellValue)
    → probe palette cell < length palette
    → probe (palette ++ more) cell ≡ probe palette cell
unfolding probe
probe-append [] more cell h = elim h [ ]
probe-append (e ∷ palette) more cell h = ground (arith, probe-append palette more cell)

-- A new cell gets the slot behind the palette.
probe-append_new :
    (palette more : List CellValue) (cell : CellValue)
    → probe palette cell ≡ length palette
    → probe (palette ++ (cell ∷ more)) cell ≡ length palette
unfolding probe
probe-append_new [] more cell h = ground (arith, cell_eq_refl cell)
probe-append_new (e ∷ palette) more cell h = ground (arith, probe-append_new palette more cell)

-- The cell that was just admitted has the slot that was stored for it.
pub admit-cases :
    (palette : List CellValue) (cell : CellValue)
    → ((probe palette cell < length palette) × (admit palette cell ≡ palette))
      ⊎ ((probe palette cell ≡ length palette) × (admit palette cell ≡ palette ++ (cell ∷ [])))
unfolding admit
admit-cases palette cell = ground (arith, probe-le palette cell)

admit_slot :
    (palette : List CellValue) (cell : CellValue)
    → (probe palette cell < length (admit palette cell))
      × (get_or (admit palette cell) (probe palette cell) no_cell ≡ cell)
admit_slot palette cell = elim (admit-cases palette cell) [
  | inl (lt, e) ↦ rw e (lt, get_or-probe palette cell lt)
  | inr (new, e) ↦
      let inside : probe (palette ++ (cell ∷ [])) cell < length (palette ++ (cell ∷ [])) =
        omega (arith, probe-append_new palette [] cell new, length-append palette (cell ∷ [])) in
      let same : probe palette cell ≡ probe (palette ++ (cell ∷ [])) cell =
        new ∙ sym (probe-append_new palette [] cell new) in
      rw e (rw same (inside, get_or-probe (palette ++ (cell ∷ [])) cell inside))
]

admit_extends :
    (palette : List CellValue) (cell : CellValue)
    → (more : List CellValue) × (admit palette cell ≡ palette ++ more)
admit_extends palette cell = elim (admit-cases palette cell) [
  | inl (_, e) ↦ ([], e ∙ sym (append-nil palette))
  | inr (_, e) ↦ (cell ∷ [], e)
]

palette_extends :
    (palette cells : List CellValue)
    → (more : List CellValue) × (palette_of palette cells ≡ palette ++ more)
unfolding first_loop
palette_extends palette [] = ([], sym (append-nil palette))
palette_extends palette (c ∷ cells) =
    let (one, e) = admit_extends palette c in
    let (more, f) = palette_extends (admit palette c) cells in
    (one ++ more, f ∙ rw (e, append_assoc))

-- Every slot lies inside of the final palette.
pub slots_inside :
    (palette cells : List CellValue)
    → All (λ s. s < length (palette_of palette cells)) (slots_of palette cells)
unfolding first_loop
slots_inside palette [] = tt
slots_inside palette (c ∷ cells) =
    let (more, f) = palette_extends (admit palette c) cells in
    (
      omega (arith, admit_slot palette c, ap length f, length-append (admit palette c) more),
      slots_inside (admit palette c) cells,
    )

-- The cell that a slot stands for.
abbrev pub look_up : List CellValue → ℕ → CellValue
look_up palette s = get_or palette s no_cell

-- The slots, looked up in the final palette, give the cells back.
pub slots_lead_back :
    (palette cells : List CellValue)
    → map (look_up (palette_of palette cells)) (slots_of palette cells) ≡ cells
unfolding first_loop
slots_lead_back palette [] = refl
slots_lead_back palette (c ∷ cells) =
    let (more, f) = palette_extends (admit palette c) cells in
    let (inside, found) = admit_slot palette c in
    ap₂ ◌∷◌
      (rw f (get_or-append_left (admit palette c) more (probe palette c) no_cell inside ∙ found))
      (slots_lead_back (admit palette c) cells)

pub length-slots_of :
    (palette cells : List CellValue) → length (slots_of palette cells) ≡ length cells
unfolding first_loop
length-slots_of palette [] = refl
length-slots_of palette (c ∷ cells) = ap suc (length-slots_of (admit palette c) cells)

-- The palette grows by one entry a cell at most.
pub length-palette_of-le :
    (palette cells : List CellValue)
    → length (palette_of palette cells) ≤ length palette + length cells
unfolding first_loop admit
length-palette_of-le palette [] = omega arith
length-palette_of-le palette (c ∷ cells) = ground (
  arith,
  length-palette_of-le palette cells,
  length-palette_of-le (palette ++ (c ∷ [])) cells,
  length-append palette (c ∷ []),
)

-- What holds of the cells holds of the palette.
pub All-palette_of {ℓ} :
    (P : CellValue → Type ℓ) (palette cells : List CellValue)
    → All P palette
    → All P cells
    → All P (palette_of palette cells)
unfolding first_loop
All-palette_of P palette [] a b = a
All-palette_of P palette (c ∷ cells) a (pc, b) = elim (admit-cases palette c) [
  | inl (_, e) ↦ rw e (All-palette_of P palette cells a b)
  | inr (_, e) ↦
      rw e
        (All-palette_of P (palette ++ (c ∷ [])) cells (All-append P palette (c ∷ []) a (pc, tt)) b)
]
