-- ===== src/ChunkKey/Order.antt =====
-- The order of the keys of chunks is the order of their coordinates.
use voxel.Base.{
  ℕ, ◌+◌, ◌-◌, ◌*◌, ◌/◌, ◌%◌, ◌^◌, ◌<◌, ◌≡◌, refl, sym, ap, ◌∙◌, Bool, List, [], ◌∷◌, ◌++◌, arith,
  ltb, ◌==◌, if◌then◌else◌, length, All,
}
use voxel.Base.Bits.Xor.{bit_xor_top}
use voxel.Base.Int.{ℤ, pos, negsuc, ltb_int, eqb_int, IsInt32, to_u32}
use voxel.Bytes.{IsByte}
use voxel.Bytes.Order.{bytes_less, big_endian, bytes_less-big_endian, digit_order}
use voxel.ChunkKey.{flipped, put_axis, chunk_store_key}

-- The coordinate counted from the least one.
unfoldable pub biased : ℤ → ℕ
biased (pos n) = 2 ^ 31 + n
biased (negsuc n) = 2 ^ 31 - 1 - n

pub flipped-eq_biased : (v : ℤ) → IsInt32 v → flipped v ≡ biased v
unfolding flipped to_u32 biased
flipped-eq_biased (pos n) h =
    let small : n % 2 ^ 32 ≡ n = omega (arith, h) in
    rw small (bit_xor_top 31 n (omega (arith, h)) ∙ ground (arith, h))
flipped-eq_biased (negsuc n) h =
    let small : n % 2 ^ 32 ≡ n = omega (arith, h) in
    rw small (bit_xor_top 31 (2 ^ 32 - 1 - n) (omega (arith, h)) ∙ ground (arith, h))

pub biased-lt : (v : ℤ) → IsInt32 v → biased v < 2 ^ 32
unfolding biased
biased-lt (pos n) h = omega (arith, h)
biased-lt (negsuc n) h = omega (arith, h)

-- First by the first coordinate, then by the second, then by the third.
unfoldable pub before_chunk : ℤ → ℤ → ℤ → ℤ → ℤ → ℤ → Bool
before_chunk x y z x' y' z' =
    if eqb_int x x' then if eqb_int y y' then ltb_int z z' else ltb_int y y' else ltb_int x x'

ltb-biased : (v w : ℤ) → IsInt32 v → IsInt32 w → ltb (biased v) (biased w) ≡ ltb_int v w
unfolding biased
ltb-biased (pos m) (pos n) h g = ground (arith, h, g)
ltb-biased (pos m) (negsuc n) h g = ground (arith, h, g)
ltb-biased (negsuc m) (pos n) h g = ground (arith, h, g)
ltb-biased (negsuc m) (negsuc n) h g = ground (arith, h, g)

eqb-biased : (v w : ℤ) → IsInt32 v → IsInt32 w → (biased v == biased w) ≡ eqb_int v w
unfolding biased
eqb-biased (pos m) (pos n) h g = ground (arith, h, g)
eqb-biased (pos m) (negsuc n) h g = ground (arith, h, g)
eqb-biased (negsuc m) (pos n) h g = ground (arith, h, g)
eqb-biased (negsuc m) (negsuc n) h g = ground (arith, h, g)

bytes_of : ℕ → List ℕ
bytes_of f = f / 2 ^ 24 % 256 ∷ f / 2 ^ 16 % 256 ∷ f / 2 ^ 8 % 256 ∷ f % 256 ∷ []

word_key : ℕ → ℕ → ℕ → List ℕ
word_key a b c = bytes_of a ++ (bytes_of b ++ bytes_of c)

word_key-IsByte : (a b c : ℕ) → All IsByte (word_key a b c)
unfolding word_key bytes_of
word_key-IsByte a b c = ground arith

word_key-same_length : (a b c a' b' c' : ℕ) → length (word_key a b c) ≡ length (word_key a' b' c')
unfolding word_key bytes_of
word_key-same_length a b c a' b' c' = refl

big_endian-word_key :
    (a b c : ℕ)
    → a < 2 ^ 32
    → b < 2 ^ 32
    → c < 2 ^ 32
    → big_endian (word_key a b c) ≡ a * 2 ^ 64 + (b * 2 ^ 32 + c)
unfolding word_key bytes_of big_endian
big_endian-word_key a b c h g k = omega arith

word_key-less :
    (a b c a' b' c' : ℕ)
    → a < 2 ^ 32
    → b < 2 ^ 32
    → c < 2 ^ 32
    → a' < 2 ^ 32
    → b' < 2 ^ 32
    → c' < 2 ^ 32
    → bytes_less (word_key a b c) (word_key a' b' c')
      ≡ (if a == a' then if b == b' then ltb c c' else ltb b b' else ltb a a')
word_key-less a b c a' b' c' p q r p' q' r' =
    let low = b * 2 ^ 32 + c in
    let low' = b' * 2 ^ 32 + c' in
    let top = digit_order a a' low low' (2 ^ 64) (omega arith) (omega arith) in
    let rest = digit_order b b' c c' (2 ^ 32) r r' in
    bytes_less-big_endian (word_key a b c) (word_key a' b' c') (word_key-IsByte a b c)
      (word_key-IsByte a' b' c') (word_key-same_length a b c a' b' c')
    ∙ rw (big_endian-word_key a b c p q r, big_endian-word_key a' b' c' p' q' r')
        (sym top ∙ ap (λ t. if a == a' then t else ltb a a') (sym rest))

key-eq_word_key :
    (x y z : ℤ)
    → IsInt32 x
    → IsInt32 y
    → IsInt32 z
    → chunk_store_key x y z ≡ word_key (biased x) (biased y) (biased z)
unfolding chunk_store_key put_axis word_key bytes_of
key-eq_word_key x y z p q r =
    rw (flipped-eq_biased x p, flipped-eq_biased y q, flipped-eq_biased z r) refl

-- For coordinates of 32 bits the byte order of the keys is the order of the coordinates: by x, then
-- by y, then by z, negative ones first.
pub bytes_less-chunk_store_key :
    (x y z x' y' z' : ℤ)
    → IsInt32 x
    → IsInt32 y
    → IsInt32 z
    → IsInt32 x'
    → IsInt32 y'
    → IsInt32 z'
    → bytes_less (chunk_store_key x y z) (chunk_store_key x' y' z') ≡ before_chunk x y z x' y' z'
unfolding before_chunk
bytes_less-chunk_store_key x y z x' y' z' p q r p' q' r' =
    rw (key-eq_word_key x y z p q r, key-eq_word_key x' y' z' p' q' r')
      (word_key-less (biased x) (biased y) (biased z) (biased x') (biased y') (biased z')
          (biased-lt x p) (biased-lt y q) (biased-lt z r) (biased-lt x' p') (biased-lt y' q')
          (biased-lt z' r')
        ∙ rw
            (
              eqb-biased x x' p p',
              eqb-biased y y' q q',
              ltb-biased z z' r r',
              ltb-biased y y' q q',
              ltb-biased x x' p p',
            )
            refl)
