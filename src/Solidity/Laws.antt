-- ===== src/Solidity/Laws.antt =====
-- The packed keys tell the chunks of the domain apart, and a world cell reads the chunk that covers it.
use voxel.Base.{
  ℕ, ◌+◌, ◌-◌, ◌*◌, ◌%◌, ◌^◌, ◌<◌, bit_or, ◌≡◌, refl, sym, ap, ◌∙◌, subst, inl, inr, Bool, false,
  not, ◌&&◌, Option, none, some, arith, ltb, ◌==◌, if◌then◌else◌, Bool-cases, get_or,
}
use voxel.Base.Assoc.{find, find-erase, ==-Decides}
use voxel.Base.Bits.{bit_and_mask, bit_or_disjoint, bit_or_comm}
use voxel.Base.Int.{ℤ, pos, negsuc, eqb_int, to_u32}
use voxel.Blob.{UnpackedChunk, no_cell}
use voxel.Morton.{morton_encode}
use voxel.Solidity.{local_of, enc, pack_key, SolidityWorld, add_chunk, chunk_of, solid_in, solid_at}

-- The domain that packKey asserts.
abbrev pub InDomain : ℤ → Type 0
InDomain (pos n) = n < 2 ^ 20
InDomain (negsuc n) = n + 1 < 2 ^ 20

centred : ℤ → ℕ
centred (pos n) = 2 ^ 20 + n
centred (negsuc n) = 2 ^ 20 - 1 - n

enc-centred : (c : ℤ) → InDomain c → enc c ≡ centred c
unfolding enc to_u32 centred
enc-centred (pos n) h = bit_and_mask 21 _ ∙ omega arith
enc-centred (negsuc n) h = bit_and_mask 21 _ ∙ omega arith

centred-lt : (c : ℤ) → InDomain c → centred c < 2 ^ 21
unfolding centred
centred-lt (pos n) h = omega arith
centred-lt (negsuc n) h = omega arith

eqb-centred : (a b : ℤ) → InDomain a → InDomain b → (centred a == centred b) ≡ eqb_int a b
unfolding centred
eqb-centred (pos m) (pos n) h g = ground arith
eqb-centred (pos m) (negsuc n) h g = ground arith
eqb-centred (negsuc m) (pos n) h g = ground arith
eqb-centred (negsuc m) (negsuc n) h g = ground arith

packed :
    (a b c : ℕ)
    → a < 2 ^ 21
    → b < 2 ^ 21
    → c < 2 ^ 21
    → bit_or (bit_or (a * 2 ^ 42 % 2 ^ 64) (b * 2 ^ 21 % 2 ^ 64)) c ≡ c + (b + a * 2 ^ 21) * 2 ^ 21
packed a b c h g k =
    let top : a * 2 ^ 42 % 2 ^ 64 ≡ a * 2 ^ 42 = omega arith in
    let mid : b * 2 ^ 21 % 2 ^ 64 ≡ b * 2 ^ 21 = omega arith in
    let sum : b * 2 ^ 21 + a * 2 ^ 42 ≡ (b + a * 2 ^ 21) * 2 ^ 21 = omega arith in
    rw
      (
        top,
        mid,
        bit_or_comm (a * 2 ^ 42) (b * 2 ^ 21),
        bit_or_disjoint 42 (b * 2 ^ 21) a (omega arith),
        sum,
        bit_or_comm ((b + a * 2 ^ 21) * 2 ^ 21) c,
      )
      (bit_or_disjoint 21 c (b + a * 2 ^ 21) k)

packed_eq :
    (a b c x y z : ℕ)
    → a < 2 ^ 21
    → b < 2 ^ 21
    → c < 2 ^ 21
    → x < 2 ^ 21
    → y < 2 ^ 21
    → z < 2 ^ 21
    → (c + (b + a * 2 ^ 21) * 2 ^ 21 == z + (y + x * 2 ^ 21) * 2 ^ 21)
      ≡ (a == x && (b == y && c == z))
packed_eq a b c x y z ha hb hc hx hy hz = ground arith

pack_key-centred :
    (x y z : ℤ)
    → InDomain x
    → InDomain y
    → InDomain z
    → pack_key x y z ≡ centred z + (centred y + centred x * 2 ^ 21) * 2 ^ 21
unfolding pack_key
pack_key-centred x y z hx hy hz =
    rw (enc-centred x hx, enc-centred y hy, enc-centred z hz)
      (packed (centred x) (centred y) (centred z) (centred-lt x hx) (centred-lt y hy)
        (centred-lt z hz))

-- Inside the asserted domain two packed keys are equal exactly for the same chunk coordinates.
pub pack_key_same :
    (x y z a b c : ℤ)
    → InDomain x
    → InDomain y
    → InDomain z
    → InDomain a
    → InDomain b
    → InDomain c
    → (pack_key x y z == pack_key a b c) ≡ (eqb_int x a && (eqb_int y b && eqb_int z c))
pack_key_same x y z a b c hx hy hz ha hb hc =
    rw (pack_key-centred x y z hx hy hz, pack_key-centred a b c ha hb hc)
      (packed_eq (centred x) (centred y) (centred z) (centred a) (centred b) (centred c)
          (centred-lt x hx) (centred-lt y hy) (centred-lt z hz) (centred-lt a ha) (centred-lt b hb)
          (centred-lt c hc)
        ∙ rw (eqb-centred x a hx ha, eqb-centred y b hy hb, eqb-centred z c hz hc) refl)

solid_at-found :
    (m : SolidityWorld) (x y z : ℤ) (chunk : UnpackedChunk)
    → find ◌==◌ (pack_key (chunk_of x) (chunk_of y) (chunk_of z)) m ≡ some chunk
    → solid_at m x y z ≡ solid_in chunk x y z
unfolding solid_at solid_in
solid_at-found m x y z chunk e = rw (solid_at, e) refl

solid_at-same :
    (m n : SolidityWorld) (x y z : ℤ)
    → find ◌==◌ (pack_key (chunk_of x) (chunk_of y) (chunk_of z)) m
      ≡ find ◌==◌ (pack_key (chunk_of x) (chunk_of y) (chunk_of z)) n
    → solid_at m x y z ≡ solid_at n x y z
unfolding solid_at
solid_at-same m n x y z e =
    ap
      (λ (o : Option UnpackedChunk). elim o as (λ _. Bool) [
        | none ↦ false
        | some chunk ↦ solid_in chunk x y z
      ])
      e

find-add_chunk :
    (m : SolidityWorld) (cx cy cz : ℤ) (chunk : UnpackedChunk) (asked : ℕ)
    → find ◌==◌ asked (add_chunk m cx cy cz chunk)
      ≡ (if pack_key cx cy cz == asked then some chunk else find ◌==◌ asked m)
unfolding add_chunk find
find-add_chunk m cx cy cz chunk asked = elim (Bool-cases (pack_key cx cy cz == asked)) [
  | inl e ↦ rw e refl
  | inr e ↦ rw e (find-erase ◌==◌ ==-Decides (pack_key cx cy cz) asked m ∙ rw e refl)
]

-- The same by the parts that the lookup computes.
solid_at-add_covering :
    (m : SolidityWorld) (cx cy cz : ℤ) (chunk : UnpackedChunk) (x y z : ℤ)
    → InDomain cx
    → InDomain cy
    → InDomain cz
    → InDomain (chunk_of x)
    → InDomain (chunk_of y)
    → InDomain (chunk_of z)
    → solid_at (add_chunk m cx cy cz chunk) x y z ≡ (
        if eqb_int cx (chunk_of x) && (eqb_int cy (chunk_of y) && eqb_int cz (chunk_of z))
        then solid_in chunk x y z
        else solid_at m x y z)
solid_at-add_covering m cx cy cz chunk x y z hx hy hz ha hb hc =
    let asked = pack_key (chunk_of x) (chunk_of y) (chunk_of z) in
    let found = find-add_chunk m cx cy cz chunk asked in
    let same = pack_key_same cx cy cz (chunk_of x) (chunk_of y) (chunk_of z) hx hy hz ha hb hc in
    elim (Bool-cases (pack_key cx cy cz == asked)) [
      | inl e ↦
          rw (← same, e)
            (solid_at-found (add_chunk m cx cy cz chunk) x y z chunk
              (found ∙ ap (λ t. if t then some chunk else find ◌==◌ asked m) e))
      | inr e ↦
          rw (← same, e)
            (solid_at-same (add_chunk m cx cy cz chunk) m x y z
              (found ∙ ap (λ t. if t then some chunk else find ◌==◌ asked m) e))
    ]

-- `16 * c + l`: the world coordinate of a place in a chunk.
unfoldable pub world_coord : ℤ → ℕ → ℤ
world_coord (pos c) l = pos (c * 16 + l)
world_coord (negsuc c) l = negsuc (c * 16 + (15 - l))

chunk_of-world_coord : (c : ℤ) (l : ℕ) → l < 16 → chunk_of (world_coord c l) ≡ c
unfolding chunk_of world_coord
chunk_of-world_coord (pos c) l h = ap pos (omega arith)
chunk_of-world_coord (negsuc c) l h = ap negsuc (omega arith)

local_of-world_coord : (c : ℤ) (l : ℕ) → l < 16 → local_of (world_coord c l) ≡ l
unfolding local_of world_coord
local_of-world_coord (pos c) l h = omega arith
local_of-world_coord (negsuc c) l h = omega arith

-- Whether the cell of a chunk at a place has a content.
unfoldable pub has_content : UnpackedChunk → ℕ → ℕ → ℕ → Bool
has_content chunk x y z =
    ltb 0 (get_or chunk.cells (morton_encode (record { x = x; y = y; z = z })) no_cell).content

pub positive : (n : ℕ) → not (n == 0) ≡ ltb 0 n
positive n = ground arith

solid_there :
    (chunk : UnpackedChunk) (ax ay az : ℤ) (x y z : ℕ)
    → x < 16
    → y < 16
    → z < 16
    → solid_in chunk (world_coord ax x) (world_coord ay y) (world_coord az z)
      ≡ has_content chunk x y z
unfolding solid_in has_content
solid_there chunk ax ay az x y z hx hy hz =
    rw (local_of-world_coord ax x hx, local_of-world_coord ay y hy, local_of-world_coord az z hz)
      (positive _)

-- Adding a chunk at c and asking for the world cell at 16 * a + l, a chunk's coordinates and a place
-- in it: when a is c the cell is solid exactly when the added chunk has a content at l, else as
-- before. Both chunks' coordinates, negative ones too, are in the asserted domain.
pub solid_at-add_chunk :
    (m : SolidityWorld) (cx cy cz : ℤ) (chunk : UnpackedChunk) (ax ay az : ℤ) (x y z : ℕ)
    → InDomain cx
    → InDomain cy
    → InDomain cz
    → InDomain ax
    → InDomain ay
    → InDomain az
    → x < 16
    → y < 16
    → z < 16
    → solid_at (add_chunk m cx cy cz chunk) (world_coord ax x) (world_coord ay y) (world_coord az z)
      ≡ (if eqb_int cx ax && (eqb_int cy ay && eqb_int cz az)
          then has_content chunk x y z
          else solid_at m (world_coord ax x) (world_coord ay y) (world_coord az z))
solid_at-add_chunk m cx cy cz chunk ax ay az x y z dx dy dz ex ey ez hx hy hz =
    let px = chunk_of-world_coord ax x hx in
    let py = chunk_of-world_coord ay y hy in
    let pz = chunk_of-world_coord az z hz in
    solid_at-add_covering m cx cy cz chunk (world_coord ax x) (world_coord ay y) (world_coord az z)
      dx dy dz (subst InDomain (sym px) ex) (subst InDomain (sym py) ey)
      (subst InDomain (sym pz) ez)
    ∙ rw (px, py, pz, solid_there chunk ax ay az x y z hx hy hz) refl
