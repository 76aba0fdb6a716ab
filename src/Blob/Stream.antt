-- ===== src/Blob/Stream.antt =====
-- The index stream: what the second loop of the packer writes into the u64 words is what
-- `readIndex` takes out of them. The width divides 64, so that no entry straddles two words.
pub mod Fields
mod Write
use Fields.{field, word_of, place_of, row_room, tiles_pos, IsU64}
use Write.{Written, write_indices-Written, length-write_indices, write_indices-IsU64}
use native.Mathlib.Nat.{
  mod-lt, div-add-mod', mul-le-mul_right, one-le-pow, add-mul-div_right, add-mul-mod_self_right,
  div-eq_of_lt, mod-eq_of_lt, pow-le-pow_right, mul-lt-mul_of_pos_right, lt_of_lt_of_le, suc-mul,
  le_refl, zero-add,
}
use voxel.Base.{
  ℕ, zero, suc, ◌+◌, ◌-◌, ◌*◌, ◌/◌, ◌%◌, ◌^◌, ◌≤◌, ◌<◌, bit_or, ◌≡◌, ◌≢◌, refl, sym, ap, ◌∙◌, subst,
  arith, ◌⊎◌, inl, inr, List, [], ◌∷◌, length, length-set, length-replicate, get_or,
  get_or-replicate, replicate, get_or-set_self, get_or-set_ne, set, All, All-set, All-get_or,
  ℕ_discrete,
}
use voxel.Base.Bits.{bit_or_disjoint, bit_or-lt}
use voxel.Bytes.Laws.{pow-add}
use voxel.Blob.{write_index, write_indices, words_for}

-- The stream that the packer emits for the slots.
abbrev pub stream_of : ℕ → List ℕ → List ℕ
stream_of bits slots = write_indices bits 0 slots (replicate (words_for (length slots) bits) 0)

pub length-stream_of :
    (bits : ℕ) (slots : List ℕ) → length (stream_of bits slots) ≡ words_for (length slots) bits
length-stream_of bits slots =
    length-write_indices bits 0 slots _ ∙ length-replicate (words_for (length slots) bits) 0

pub stream_of-IsU64 : (bits : ℕ) (slots : List ℕ) → All IsU64 (stream_of bits slots)
stream_of-IsU64 bits slots =
    write_indices-IsU64 bits 0 slots _ (zeros (words_for (length slots) bits))
  where
    zeros : (n : ℕ) → All IsU64 (replicate n 0)
    zeros zero = tt
    zeros (suc n) = (omega arith, zeros n)

-- Entry `j` of the finished stream is slot `j`.
pub field-stream_of :
    (bits per : ℕ) (slots : List ℕ) (j : ℕ)
    → per * bits ≡ 64
    → All (λ x. x < 2 ^ bits) slots
    → j < length slots
    → field bits (place_of bits j) (get_or (stream_of bits slots) (word_of bits j) 0)
      ≡ get_or slots j 0
field-stream_of bits per slots j tiles small lt =
    (write_indices-Written bits per tiles (λ k. get_or slots k 0) 0 slots start blank
        (λ k _. ap (λ n. get_or slots n 0) (sym (zero-add k))) small room).done
      j (omega arith)
  where
    start : List ℕ
    start = replicate (words_for (length slots) bits) 0

    blank : Written bits per tiles (λ k. get_or slots k 0) 0 start
    blank = record {
      done = λ k h. elim h [ ];
      ahead = λ k _.
          rw (get_or-replicate {A = ℕ} (words_for (length slots) bits) (word_of bits k) 0)
            (one-le-pow (place_of bits k) 2 (omega arith));
    }

    room : (k : ℕ) → k < length slots → word_of bits (0 + k) < length start
    room k h =
        rw (zero-add k, length-replicate {A = ℕ} (words_for (length slots) bits) 0)
          (omega (arith, row_room k bits (length slots) h, tiles_pos bits per tiles))
