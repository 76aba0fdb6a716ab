-- ===== src/Identity/Uuids.antt =====
-- The layout of a version 7 UUID and the order of its bytes: makeUuidV7, the readers of its fields
-- and uuidLess.
use voxel.Base.{
  ℕ, ◌+◌, ◌-◌, ◌*◌, ◌/◌, ◌%◌, ◌^◌, ◌<◌, bit_and, bit_or, ◌≡◌, refl, ap, ◌∙◌, true, List, [], ◌∷◌,
  ◌++◌, arith, lt→ltb, length, All,
}
use voxel.Base.Bits.{bit_or_high, bit_and_mask}
use native.Mathlib.Nat.{one-le-pow, mod-lt}
use voxel.Bytes.Order.{bytes_less, big_endian, bytes_less-big_endian}
use voxel.Bytes.{IsByte}
use voxel.Identity.{
  Uuid, make_uuid_v7, v7_bytes, uuid_version, uuid_variant_bits, uuid_v7_timestamp_ms, uuid_less,
  less_from,
}

-- The fields that a version 7 UUID of these arguments shows.
abbrev pub ShowsV7 : ℕ → Uuid → Type 0
ShowsV7 unix_ms u =
    (uuid_version u ≡ 7) × (uuid_variant_bits u ≡ 2) × (uuid_v7_timestamp_ms u ≡ unix_ms % 2 ^ 48)

version_byte : (a : ℕ) → a < 2 ^ 12 → bit_or 0x70 (a / 2 ^ 8) ≡ 0x70 + a / 2 ^ 8
version_byte a h = bit_or_high 4 7 (a / 2 ^ 8) (omega arith)

variant_byte : (b : ℕ) → bit_or 0x80 (bit_and (b / 2 ^ 56) 0x3F) ≡ 0x80 + b / 2 ^ 56 % 2 ^ 6
variant_byte b =
    rw (bit_and_mask 6 (b / 2 ^ 56)) (bit_or_high 6 2 (b / 2 ^ 56 % 2 ^ 6) (omega arith))

-- Six bytes put together, the first on top.
or_bytes : ℕ → ℕ → ℕ → ℕ → ℕ → ℕ → ℕ
or_bytes a b c d e f =
    bit_or
      (bit_or (bit_or (bit_or (bit_or (a * 2 ^ 40) (b * 2 ^ 32)) (c * 2 ^ 24)) (d * 2 ^ 16))
        (e * 2 ^ 8))
      f

or_step : (j q r p : ℕ) → p ≡ q * 2 ^ j → r < 2 ^ j → bit_or p r ≡ p + r
or_step j q r p e h = rw e (bit_or_high j q r h)

or_next : (j q r p t : ℕ) → t ≡ p → p ≡ q * 2 ^ j → r < 2 ^ j → bit_or t r ≡ p + r
or_next j q r p t s e h = ap (λ (x : ℕ). bit_or x r) s ∙ or_step j q r p e h

or_bytes-eq_add :
    (ms : ℕ)
    → ms < 2 ^ 48
    → or_bytes
        (ms / 2 ^ 40 % 256)
        (ms / 2 ^ 32 % 256)
        (ms / 2 ^ 24 % 256)
        (ms / 2 ^ 16 % 256)
        (ms / 2 ^ 8 % 256)
        (ms % 256)
      ≡ ms
unfolding or_bytes
or_bytes-eq_add ms h =
    let a = ms / 2 ^ 40 % 256 * 2 ^ 40 in
    let b = ms / 2 ^ 32 % 256 * 2 ^ 32 in
    let c = ms / 2 ^ 24 % 256 * 2 ^ 24 in
    let d = ms / 2 ^ 16 % 256 * 2 ^ 16 in
    let e = ms / 2 ^ 8 % 256 * 2 ^ 8 in
    let s1 = or_step 40 (ms / 2 ^ 40) b a (omega arith) (omega arith) in
    let s2 = or_next 32 (ms / 2 ^ 32) c (a + b) _ s1 (omega arith) (omega arith) in
    let s3 = or_next 24 (ms / 2 ^ 24) d (a + b + c) _ s2 (omega arith) (omega arith) in
    let s4 = or_next 16 (ms / 2 ^ 16) e (a + b + c + d) _ s3 (omega arith) (omega arith) in
    let s5 =
      or_next 8 (ms / 2 ^ 8) (ms % 256) (a + b + c + d + e) _ s4 (omega arith) (omega arith) in
    s5 ∙ omega arith

masked : (k a : ℕ) → bit_and a (2 ^ k - 1) < 2 ^ k
masked k a = rw (bit_and_mask k a) (mod-lt a (one-le-pow k 2 (omega arith)))

-- A UUID made by makeUuidV7 has version 7, the RFC variant and the low 48 bits of the given
-- time, whatever the arguments are.
pub make_uuid_v7-ShowsV7 :
    (unix_ms rand_a rand_b : ℕ) → ShowsV7 unix_ms (make_uuid_v7 unix_ms rand_a rand_b)
unfolding make_uuid_v7 v7_bytes uuid_version uuid_variant_bits uuid_v7_timestamp_ms or_bytes
make_uuid_v7-ShowsV7 unix_ms rand_a rand_b =
    let a = masked 12 rand_a in
    let b = masked 62 rand_b in
    (
      omega (arith, version_byte (bit_and rand_a 0xFFF) a),
      omega (arith, variant_byte (bit_and rand_b 0x3FFFFFFFFFFFFFFF)),
      or_bytes-eq_add (bit_and unix_ms 0xFFFFFFFFFFFF) (masked 48 unix_ms)
          ∙ bit_and_mask 48 unix_ms,
    )

less_from-bytes_less : (xs ys : List ℕ) → length xs ≡ length ys → less_from xs ys ≡ bytes_less xs ys
unfolding less_from bytes_less
less_from-bytes_less [] [] e = refl
less_from-bytes_less [] (y ∷ ys) e = absurd (omega arith)
less_from-bytes_less (x ∷ xs) [] e = absurd (omega arith)
less_from-bytes_less (x ∷ xs) (y ∷ ys) e = ground (arith, less_from-bytes_less xs ys (omega arith))

less_from_front :
    (xs ys us vs : List ℕ)
    → length xs ≡ length ys
    → less_from xs ys ≡ true
    → less_from (xs ++ us) (ys ++ vs) ≡ true
unfolding less_from
less_from_front [] [] us vs e h = absurd cc
less_from_front [] (y ∷ ys) us vs e h = absurd (omega arith)
less_from_front (x ∷ xs) [] us vs e h = absurd (omega arith)
less_from_front (x ∷ xs) (y ∷ ys) us vs e h =
    ground (arith, less_from_front xs ys us vs (omega arith))

-- The six bytes of the time, read as a number.
time_bytes : ℕ → List ℕ
time_bytes ms =
    ms / 2 ^ 40 % 256
    ∷ ms / 2 ^ 32 % 256
    ∷ ms / 2 ^ 24 % 256
    ∷ ms / 2 ^ 16 % 256
    ∷ ms / 2 ^ 8 % 256
    ∷ ms % 256
    ∷ []

big_endian-time_bytes : (ms : ℕ) → ms < 2 ^ 48 → big_endian (time_bytes ms) ≡ ms
unfolding big_endian time_bytes
big_endian-time_bytes ms h = omega arith

time_bytes-IsByte : (ms : ℕ) → All IsByte (time_bytes ms)
unfolding time_bytes
time_bytes-IsByte ms = ground arith

time_bytes-same_length : (ms later : ℕ) → length (time_bytes ms) ≡ length (time_bytes later)
unfolding time_bytes
time_bytes-same_length ms later = refl

less_from-time_bytes :
    (ms later : ℕ)
    → ms < 2 ^ 48
    → later < 2 ^ 48
    → ms < later
    → less_from (time_bytes ms) (time_bytes later) ≡ true
less_from-time_bytes ms later h g lt =
    let same = time_bytes-same_length ms later in
    less_from-bytes_less (time_bytes ms) (time_bytes later) same
    ∙ bytes_less-big_endian (time_bytes ms) (time_bytes later) (time_bytes-IsByte ms)
        (time_bytes-IsByte later) same
    ∙ rw (big_endian-time_bytes ms h, big_endian-time_bytes later g) (lt→ltb ms later lt)

-- UUIDs are ordered by their time: of two made at different times of 48 bits, the earlier one is
-- the lesser, whatever their random fields are.
pub uuid_less-make_uuid_v7 :
    (ms later a b a' b' : ℕ)
    → ms % 2 ^ 48 < later % 2 ^ 48
    → uuid_less (make_uuid_v7 ms a b) (make_uuid_v7 later a' b') ≡ true
unfolding make_uuid_v7 v7_bytes uuid_less time_bytes
uuid_less-make_uuid_v7 ms later a b a' b' h =
    let front =
      less_from-time_bytes (bit_and ms 0xFFFFFFFFFFFF) (bit_and later 0xFFFFFFFFFFFF) (masked 48 ms)
        (masked 48 later) (rw (bit_and_mask 48 ms, bit_and_mask 48 later) h) in
    less_from_front (time_bytes (bit_and ms 0xFFFFFFFFFFFF))
      (time_bytes (bit_and later 0xFFFFFFFFFFFF)) _ _ refl front
