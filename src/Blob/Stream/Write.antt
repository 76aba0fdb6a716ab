-- ===== src/Blob/Stream/Write.antt =====
-- The loop that writes the stream: after each write the entries so far are in place, and the rest
-- of each word is still 0.
use native.Mathlib.Nat.{mod-eq_of_lt, pow-le-pow_right, lt_of_lt_of_le, le_refl}
use voxel.Base.{
  ℕ, zero, suc, ◌+◌, ◌*◌, ◌/◌, ◌^◌, ◌≤◌, ◌<◌, ◌≡◌, ◌≢◌, refl, sym, ap, ◌∙◌, subst, arith, ◌⊎◌, inl,
  inr, List, [], ◌∷◌, length, length-set, get_or, get_or-set_self, get_or-set_ne, set, All, All-set,
  ℕ_discrete,
}
use voxel.Base.Bits.{bit_or_disjoint, bit_or-lt}
use voxel.Blob.{write_index, write_indices}
use voxel.Blob.Stream.Fields.{
  IsU64, field, field_keeps, field_new, slot_fits, word_of, place_of, places_apart, place_fits,
}

pub length-write_index :
    (bits i x : ℕ) (stream : List ℕ) → length (write_index bits i x stream) ≡ length stream
unfolding write_index
length-write_index bits i x stream = length-set stream _ _

-- Every word of the stream stays a u64.
write_index-IsU64 :
    (bits i x : ℕ) (stream : List ℕ) → All IsU64 stream → All IsU64 (write_index bits i x stream)
unfolding write_index
write_index-IsU64 bits i x stream a =
    All-set IsU64 stream _ _ a
      (bit_or-lt 64 _ _ (word-IsU64 stream (i * bits / 64) a) (omega arith))
  where
    word-IsU64 : (ws : List ℕ) (at : ℕ) → All IsU64 ws → IsU64 (get_or ws at 0)
    word-IsU64 [] at b = omega arith
    word-IsU64 (v ∷ ws) zero b = b.0
    word-IsU64 (v ∷ ws) (suc at) b = word-IsU64 ws at b.1

pub write_indices-IsU64 :
    (bits i : ℕ) (slots stream : List ℕ)
    → All IsU64 stream
    → All IsU64 (write_indices bits i slots stream)
unfolding write_indices
write_indices-IsU64 bits i [] stream a = a
write_indices-IsU64 bits i (x ∷ slots) stream a =
    write_indices-IsU64 bits (i + 1) slots _ (write_index-IsU64 bits i x stream a)

pub length-write_indices :
    (bits i : ℕ) (slots stream : List ℕ)
    → length (write_indices bits i slots stream) ≡ length stream
unfolding write_indices
length-write_indices bits i [] stream = refl
length-write_indices bits i (x ∷ slots) stream =
    length-write_indices bits (i + 1) slots (write_index bits i x stream)
    ∙ length-write_index bits i x stream

module _ (bits per : ℕ) (tiles : per * bits ≡ 64) where
  -- The stream after the entries below `i` have been written with the values `slot`.
  pub record Written (slot : ℕ → ℕ) (i : ℕ) (stream : List ℕ) : Type 0 where
    pub done :
        (j : ℕ) → j < i → field bits (place_of bits j) (get_or stream (word_of bits j) 0) ≡ slot j
    pub ahead : (j : ℕ) → i ≤ j → get_or stream (word_of bits j) 0 < 2 ^ place_of bits j

  -- What one entry makes of its word.
  write_index_sum :
      (i slot : ℕ) (stream : List ℕ)
      → get_or stream (word_of bits i) 0 < 2 ^ place_of bits i
      → slot < 2 ^ bits
      → write_index bits i slot stream
        ≡ set stream
            (word_of bits i)
            (get_or stream (word_of bits i) 0 + slot * 2 ^ place_of bits i)
  unfolding write_index
  write_index_sum i slot stream hw hs =
      let w = get_or stream (word_of bits i) 0 in
      let s = place_of bits i in
      let top : 2 ^ (s + bits) ≤ 2 ^ 64 =
        pow-le-pow_right {n = 2} (omega arith) (place_fits bits per tiles i) in
      let below : slot * 2 ^ s < 2 ^ 64 = omega (arith, top, slot_fits bits s slot w hw hs) in
      rw (mod-eq_of_lt below, bit_or_disjoint s w slot hw)

  -- A word after the write of entry `i`: entry `i` has joined it, or it is another word.
  word_after :
      (i x : ℕ) (stream : List ℕ) (j : ℕ)
      → get_or stream (word_of bits i) 0 < 2 ^ place_of bits i
      → x < 2 ^ bits
      → word_of bits i < length stream
      → ((word_of bits i ≡ word_of bits j)
          × (get_or (write_index bits i x stream) (word_of bits j) 0
              ≡ get_or stream (word_of bits j) 0 + x * 2 ^ place_of bits i))
        ⊎ ((word_of bits i ≢ word_of bits j)
            × (get_or (write_index bits i x stream) (word_of bits j) 0
                ≡ get_or stream (word_of bits j) 0))
  word_after i x stream j hw hx hl = elim (ℕ_discrete (word_of bits i) (word_of bits j)) [
    | yes e ↦ inl (
      e,
      rw (write_index_sum i x stream hw hx, ← e) (get_or-set_self stream (word_of bits i) _ 0 hl),
    )
    | no n ↦ inr (
      n,
      rw (write_index_sum i x stream hw hx)
          (get_or-set_ne stream (word_of bits i) (word_of bits j) _ 0 n),
    )
  ]

  module _ (slot : ℕ → ℕ) (i : ℕ) (stream : List ℕ) (w : Written slot i stream)
      (hx : slot i < 2 ^ bits) (hl : word_of bits i < length stream) where
    done_step :
        (j : ℕ)
        → j < suc i
        → field bits
            (place_of bits j)
            (get_or (write_index bits i (slot i) stream) (word_of bits j) 0)
          ≡ slot j
    done_step j lt = elim (word_after i (slot i) stream j (w.ahead i (le_refl i)) hx hl) [
      | inl (e, q) ↦ elim (ℕ_discrete j i) [
        | yes same ↦
            subst
              (λ k.
                field bits (place_of bits k)
                  (get_or (write_index bits i (slot i) stream) (word_of bits k) 0)
                ≡ slot k)
              (sym same)
              (rw
                (subst
                  (λ k.
                    get_or (write_index bits i (slot i) stream) (word_of bits k) 0
                    ≡ get_or stream (word_of bits k) 0 + slot i * 2 ^ place_of bits i)
                  same q)
                (field_new bits (place_of bits i) _ (slot i) (w.ahead i (le_refl i)) hx))
        | no other ↦ rw q (
            field_keeps bits (place_of bits j) (place_of bits i) _ (slot i)
              (places_apart bits per tiles j i (omega arith) (sym e))
            ∙ w.done j (omega arith))
      ]
      | inr (n, q) ↦ rw q (w.done j (before j lt n))
    ]
      where
        before : (k : ℕ) → k < suc i → word_of bits i ≢ word_of bits k → k < i
        before k h n = elim (ℕ_discrete k i) [
          | yes same ↦ absurd (n (ap (word_of bits) (sym same)))
          | no other ↦ omega arith
        ]

    ahead_step :
        (j : ℕ)
        → suc i ≤ j
        → get_or (write_index bits i (slot i) stream) (word_of bits j) 0 < 2 ^ place_of bits j
    ahead_step j le = elim (word_after i (slot i) stream j (w.ahead i (le_refl i)) hx hl) [
      | inl (e, q) ↦
          let below : get_or stream (word_of bits j) 0 < 2 ^ place_of bits i =
            subst (λ k. get_or stream k 0 < 2 ^ place_of bits i) e (w.ahead i (le_refl i)) in
          rw q (
            lt_of_lt_of_le (slot_fits bits (place_of bits i) (slot i) _ below hx)
              (pow-le-pow_right (omega arith) (places_apart bits per tiles i j le e)))
      | inr (n, q) ↦ rw q (w.ahead j (omega arith))
    ]

    write_index-Written : Written slot (suc i) (write_index bits i (slot i) stream)
    write_index-Written = record { done = done_step; ahead = ahead_step }

  pub write_indices-Written :
      (slot : ℕ → ℕ) (i : ℕ) (slots stream : List ℕ)
      → Written slot i stream
      → ((k : ℕ) → k < length slots → get_or slots k 0 ≡ slot (i + k))
      → All (λ x. x < 2 ^ bits) slots
      → ((k : ℕ) → k < length slots → word_of bits (i + k) < length stream)
      → Written slot (i + length slots) (write_indices bits i slots stream)
  unfolding write_indices
  write_indices-Written slot i [] stream w agree small room =
      let e : i + 0 ≡ i = omega arith in rw e w
  write_indices-Written slot i (x ∷ slots) stream w agree small room =
      let e₀ : i + 0 ≡ i = omega arith in
      let here : x ≡ slot i = rw e₀ at (agree 0 (omega arith)) in
      let e : i + suc (length slots) ≡ suc i + length slots = omega arith in
      let e₁ : i + 1 ≡ suc i = omega arith in
      let next =
        write_index-Written slot i stream w (rw here at small.0)
          (rw e₀ at (room 0 (omega arith))) in
      rw (e, e₁, here)
        (write_indices-Written slot (suc i) slots (write_index bits i (slot i) stream) next
          (λ k lt. agree (suc k) (omega arith) ∙ ap slot (omega arith)) small.1
          (λ k lt.
            let e₂ : i + suc k ≡ suc i + k = omega arith in
            rw (length-write_index bits i (slot i) stream) (rw e₂ at (room (suc k) (omega arith)))))
