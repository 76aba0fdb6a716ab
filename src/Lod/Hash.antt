-- ===== src/Lod/Hash.antt =====
-- src/world/lod_pyramid.hpp: the hash of a node: lodFnv1a64, lodChunkHash and lodParentHash. A part
-- of Lod.
use voxel.Base.{
  ℕ, zero, suc, ◌+◌, ◌*◌, ◌/◌, ◌%◌, ◌^◌, ◌<◌, bit_and, bit_xor, ◌≡◌, refl, sym, ap, ◌∙◌, ◌≢◌, inl,
  inr, List, [], ◌∷◌, ◌++◌, arith, ◌==◌, if◌then◌else◌, Bool-cases, All,
}
use voxel.Bytes.{IsByte, put_le}
use voxel.Bytes.Laws.{weight_suc}
use voxel.Base.Bits.Xor.{bit_xor-lt, bit_xor_cancel_left, bit_xor_cancel_right}
use native.Mathlib.Nat.{div-div-eq-div-mul}

abbrev pub lod_fnv_offset : ℕ
lod_fnv_offset = 0xCBF29CE484222325

abbrev pub lod_fnv_prime : ℕ
lod_fnv_prime = 0x00000100000001B3

-- One byte: `h ^= byte; h *= kLodFnvPrime`.
unfoldable pub eat : ℕ → ℕ → ℕ
eat h byte = bit_xor h byte * lod_fnv_prime % 2 ^ 64

unfoldable pub lod_fnv1a64 : List ℕ → ℕ → ℕ
lod_fnv1a64 [] h = h
lod_fnv1a64 (b ∷ bytes) h = lod_fnv1a64 bytes (eat h b)

unfoldable pub lod_chunk_hash : List ℕ → ℕ
lod_chunk_hash canonical_blob = lod_fnv1a64 canonical_blob lod_fnv_offset

-- The inner loop, with the rounds that are left and `v`.
unfoldable pub eat_low_bytes : ℕ → ℕ → ℕ → ℕ
eat_low_bytes zero v h = h
eat_low_bytes (suc n) v h = eat_low_bytes n (v / 2 ^ 8) (eat h (bit_and v 0xFF))

-- The loop over the octants from `i` on, with the child hashes from there on.
unfoldable pub eat_children : ℕ → ℕ → List ℕ → ℕ → ℕ
eat_children mask i [] h = h
eat_children mask i (v ∷ hashes) h =
    eat_children mask (i + 1) hashes (if bit_and mask (2 ^ i) == 0 then h else eat_low_bytes 8 v h)

unfoldable pub lod_parent_hash : ℕ → ℕ → List ℕ → ℕ
lod_parent_hash level presence_mask child_hashes =
    eat_children presence_mask 0 child_hashes (eat (eat lod_fnv_offset level) presence_mask)

-- The hashes of the present children, each in eight little-endian bytes.
unfoldable pub present_bytes : ℕ → ℕ → List ℕ → List ℕ
present_bytes mask i [] = []
present_bytes mask i (v ∷ hashes) =
    (if bit_and mask (2 ^ i) == 0 then [] else put_le 8 0 v) ++ present_bytes mask (i + 1) hashes

lod_fnv1a64-append :
    (xs ys : List ℕ) (h : ℕ) → lod_fnv1a64 (xs ++ ys) h ≡ lod_fnv1a64 ys (lod_fnv1a64 xs h)
unfolding lod_fnv1a64
lod_fnv1a64-append [] ys h = refl
lod_fnv1a64-append (x ∷ xs) ys h = lod_fnv1a64-append xs ys (eat h x)

eat_low_bytes-put_le :
    (n i v h : ℕ) → eat_low_bytes n (v / 2 ^ (8 * i)) h ≡ lod_fnv1a64 (put_le n i v) h
unfolding eat_low_bytes lod_fnv1a64 put_le
eat_low_bytes-put_le zero i v h = refl
eat_low_bytes-put_le (suc n) i v h =
    rw shifted (eat_low_bytes-put_le n (i + 1) v (eat h (bit_and (v / 2 ^ (8 * i)) 0xFF)))
  where
    shifted : v / 2 ^ (8 * i) / 2 ^ 8 ≡ v / 2 ^ (8 * (i + 1))
    shifted = div-div-eq-div-mul v (2 ^ (8 * i)) (2 ^ 8) ∙ ap (λ w. v / w) (sym (weight_suc i))

eat_u64-put_le : (v h : ℕ) → eat_low_bytes 8 v h ≡ lod_fnv1a64 (put_le 8 0 v) h
eat_u64-put_le v h = ap (λ w. eat_low_bytes 8 w h) (div_one v) ∙ eat_low_bytes-put_le 8 0 v h
  where
    div_one : (v : ℕ) → v ≡ v / 2 ^ (8 * 0)
    div_one v = omega arith

eat_children-present_bytes :
    (mask i : ℕ) (hashes : List ℕ) (h : ℕ)
    → eat_children mask i hashes h ≡ lod_fnv1a64 (present_bytes mask i hashes) h
unfolding eat_children present_bytes lod_fnv1a64
eat_children-present_bytes mask i [] h = refl
eat_children-present_bytes mask i (v ∷ hashes) h = elim (Bool-cases (bit_and mask (2 ^ i) == 0)) [
  | inl e ↦ rw e (eat_children-present_bytes mask (i + 1) hashes h)
  | inr e ↦
      let eaten : eat_low_bytes 8 v h ≡ lod_fnv1a64 (put_le 8 0 v) h = eat_u64-put_le v h in
      rw (e, eaten)
        (eat_children-present_bytes mask (i + 1) hashes (lod_fnv1a64 (put_le 8 0 v) h)
          ∙ sym (lod_fnv1a64-append (put_le 8 0 v) (present_bytes mask (i + 1) hashes) h))
]

-- The hash of an interior node is the FNV-1a hash of the bytes that the contract names: the level,
-- the presence mask, then the hashes of the present children in the order of the octants. What
-- stands in the place of an absent child does not enter.
pub lod_parent_hash-lod_fnv1a64 :
    (level mask : ℕ) (hashes : List ℕ)
    → lod_parent_hash level mask hashes
      ≡ lod_fnv1a64 (level ∷ mask ∷ present_bytes mask 0 hashes) lod_fnv_offset
unfolding lod_parent_hash lod_fnv1a64
lod_parent_hash-lod_fnv1a64 level mask hashes =
    eat_children-present_bytes mask 0 hashes (eat (eat lod_fnv_offset level) mask)

-- The prime is odd, so that multiplication by it can be undone.
undo : (a : ℕ) → a < 2 ^ 64 → (a * lod_fnv_prime % 2 ^ 64) * 14886173955864302971 % 2 ^ 64 ≡ a
undo a h = omega arith

prime_cancel :
    (a b : ℕ)
    → a < 2 ^ 64
    → b < 2 ^ 64
    → a * lod_fnv_prime % 2 ^ 64 ≡ b * lod_fnv_prime % 2 ^ 64
    → a ≡ b
prime_cancel a b h g e = sym (undo a h) ∙ ap (λ t. t * 14886173955864302971 % 2 ^ 64) e ∙ undo b g

eat-lt : (h b : ℕ) → eat h b < 2 ^ 64
unfolding eat
eat-lt h b = omega arith

eat_cancel_hash : (a b c : ℕ) → a < 2 ^ 64 → b < 2 ^ 64 → IsByte c → eat a c ≡ eat b c → a ≡ b
unfolding eat
eat_cancel_hash a b c h g k e = bit_xor_cancel_right 64 a b c h g (
    prime_cancel (bit_xor a c) (bit_xor b c) (bit_xor-lt 64 a c h (omega arith))
      (bit_xor-lt 64 b c g (omega arith)) e)

eat_cancel_byte : (h b c : ℕ) → h < 2 ^ 64 → IsByte b → IsByte c → eat h b ≡ eat h c → b ≡ c
unfolding eat
eat_cancel_byte h b c k p q e = bit_xor_cancel_left 64 b c h (omega arith) (omega arith) (
    prime_cancel (bit_xor h b) (bit_xor h c) (bit_xor-lt 64 h b k (omega arith))
      (bit_xor-lt 64 h c k (omega arith)) e)

lod_fnv1a64-lt : (xs : List ℕ) (h : ℕ) → h < 2 ^ 64 → lod_fnv1a64 xs h < 2 ^ 64
unfolding lod_fnv1a64
lod_fnv1a64-lt [] h k = k
lod_fnv1a64-lt (x ∷ xs) h k = lod_fnv1a64-lt xs (eat h x) (eat-lt h x)

-- A common tail keeps different hashes apart.
lod_fnv1a64_cancel :
    (xs : List ℕ) (a b : ℕ)
    → All IsByte xs
    → a < 2 ^ 64
    → b < 2 ^ 64
    → lod_fnv1a64 xs a ≡ lod_fnv1a64 xs b
    → a ≡ b
unfolding lod_fnv1a64
lod_fnv1a64_cancel [] a b all h g e = e
lod_fnv1a64_cancel (x ∷ xs) a b all h g e =
    eat_cancel_hash a b x h g all.0
      (lod_fnv1a64_cancel xs (eat a x) (eat b x) all.1 (eat-lt a x) (eat-lt b x) e)

-- Two blobs of bytes that differ in one byte have different chunk hashes: the edit of a single byte
-- never goes unnoticed.
pub lod_chunk_hash_one_byte :
    (front back : List ℕ) (b c : ℕ)
    → All IsByte back
    → IsByte b
    → IsByte c
    → b ≢ c
    → lod_chunk_hash (front ++ (b ∷ back)) ≢ lod_chunk_hash (front ++ (c ∷ back))
unfolding lod_chunk_hash lod_fnv1a64
lod_chunk_hash_one_byte front back b c all p q differs e =
    let h = lod_fnv1a64 front lod_fnv_offset in
    let tails =
      sym (lod_fnv1a64-append front (b ∷ back) lod_fnv_offset)
      ∙ e
      ∙ lod_fnv1a64-append front (c ∷ back) lod_fnv_offset in
    differs (
      eat_cancel_byte h b c (lod_fnv1a64-lt front lod_fnv_offset (omega arith)) p q
        (lod_fnv1a64_cancel back (eat h b) (eat h c) all (eat-lt h b) (eat-lt h c) tails))
