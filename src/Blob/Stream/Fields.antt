-- ===== src/Blob/Stream/Fields.antt =====
-- The fields of a u64 word, and the places of the entries: the width divides 64, so that no entry
-- straddles two words.
use native.Mathlib.Nat.{
  mod-lt, div-add-mod', mul-le-mul_right, one-le-pow, add-mul-div_right, add-mul-mod_self_right,
  div-eq_of_lt, mod-eq_of_lt, suc-mul,
}
use voxel.Base.{ℕ, zero, suc, ◌+◌, ◌-◌, ◌*◌, ◌/◌, ◌%◌, ◌^◌, ◌≤◌, ◌<◌, ◌≡◌, ap, ◌∙◌, arith}
use voxel.Bytes.Laws.{pow-add}

abbrev pub IsU64 : ℕ → Type 0
IsU64 w = w < 2 ^ 64

-- The field of `bits` bits at the place `s` of a word.
abbrev pub field : ℕ → ℕ → ℕ → ℕ
field bits s w = w / 2 ^ s % 2 ^ bits

pub field_keeps : (bits s t w x : ℕ) → s + bits ≤ t → field bits s (w + x * 2 ^ t) ≡ field bits s w
field_keeps bits s t w x h =
    let d = t - (s + bits) in
    let e : t ≡ d + bits + s = omega arith in
    let weight : 2 ^ t ≡ 2 ^ d * 2 ^ bits * 2 ^ s =
      ap (λ (n : ℕ). 2 ^ n) e ∙ rw (pow-add 2 (d + bits) s, pow-add 2 d bits) in
    let split : w + x * 2 ^ t ≡ w + x * 2 ^ d * 2 ^ bits * 2 ^ s = rw weight (grind arith) in
    rw (split, add-mul-div_right w (x * 2 ^ d * 2 ^ bits) (one-le-pow s 2 (omega arith)))
      (add-mul-mod_self_right (w / 2 ^ s) (x * 2 ^ d) (2 ^ bits))

pub field_new : (bits s w x : ℕ) → w < 2 ^ s → x < 2 ^ bits → field bits s (w + x * 2 ^ s) ≡ x
field_new bits s w x hw hx =
    rw (add-mul-div_right w x (one-le-pow s 2 (omega arith)), div-eq_of_lt hw)
      (mod-eq_of_lt {n = 0 + x} (omega arith) ∙ omega arith)

-- A slot fits between its place and the next one.
pub slot_fits : (bits s x w : ℕ) → w < 2 ^ s → x < 2 ^ bits → w + x * 2 ^ s < 2 ^ (s + bits)
slot_fits bits s x w hw hx =
    let top : suc x * 2 ^ s ≤ 2 ^ bits * 2 ^ s = mul-le-mul_right (2 ^ s) hx in
    rw (pow-add 2 s bits) (omega (arith, top))

-- The word that holds entry `j`, and its place there.
abbrev pub word_of : ℕ → ℕ → ℕ
word_of bits j = j * bits / 64

abbrev pub place_of : ℕ → ℕ → ℕ
place_of bits j = j * bits % 64

pub row_room : (r bits per : ℕ) → r < per → r * bits + bits ≤ per * bits
row_room r bits per h = rw (← suc-mul r bits) (mul-le-mul_right bits h)

pub tiles_pos : (bits per : ℕ) → per * bits ≡ 64 → (0 < per) × (0 < bits)
tiles_pos bits zero e = absurd (omega (arith, e))
tiles_pos zero (suc per) e = absurd (omega (arith, e))
tiles_pos (suc bits) (suc per) e = omega arith

module _ (bits per : ℕ) (tiles : per * bits ≡ 64) where
  pub per_pos : 0 < per
  per_pos = (tiles_pos bits per tiles).0

  pub bits_pos : 0 < bits
  bits_pos = (tiles_pos bits per tiles).1

  placement : (j : ℕ) → (word_of bits j ≡ j / per) × (place_of bits j ≡ j % per * bits)
  placement j =
      let r = j % per in
      let split : j * bits ≡ j / per * 64 + r * bits =
        omega (
          arith,
          ap (λ (t : ℕ). t * bits) (div-add-mod' j per),
          ap (λ (t : ℕ). j / per * t) tiles,
        ) in
      omega (arith, split, tiles, bits_pos, row_room r bits per (mod-lt j per_pos))

  pub place_fits : (j : ℕ) → place_of bits j + bits ≤ 64
  place_fits j = omega (arith, placement j, tiles, row_room (j % per) bits per (mod-lt j per_pos))

  -- Two entries of one word do not overlap.
  pub places_apart :
      (i j : ℕ) → i < j → word_of bits i ≡ word_of bits j → place_of bits i + bits ≤ place_of bits j
  places_apart i j lt e =
      let same : i / per ≡ j / per = omega (arith, placement i, placement j) in
      let later : i % per < j % per =
        omega (arith, div-add-mod' i per, div-add-mod' j per, ap (λ (t : ℕ). t * per) same) in
      omega (arith, placement i, placement j, row_room (i % per) bits (j % per) later)
