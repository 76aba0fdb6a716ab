-- ===== src/Solidity.antt =====
-- src/world/solidity.hpp: SolidityWorld, which chunk coordinates a world cell has and whether it is
-- solid. The map is an association list; a chunk pointer stands for the chunk, which is not changed.
pub mod Laws
pub mod OnBelt
mod Examples
use voxel.Base.{
  ℕ, zero, suc, ◌+◌, ◌-◌, ◌*◌, ◌/◌, ◌%◌, ◌^◌, ◌≤◌, ◌<◌, bit_and, bit_or, bit_xor, ◌≡◌, refl, sym,
  ap, ◌∙◌, subst, ◌≢◌, ◌↔◌, ◌⊎◌, inl, inr, Bool, true, false, not, ◌&&◌, ◌||◌, Option, none, some,
  List, [], ◌∷◌, ◌++◌, map, append_assoc, append-nil, arith, dec_lt, dec_le, ℕ_discrete, ltb, leb,
  ◌==◌, if◌then◌else◌, ltb→lt, lt→ltb, ltb-false→le, ==_iff, ==_refl, Bool-cases, Bool-agree,
  Option-cases, length, get_elem?, get_or, set, replicate, All, length-append, length-set,
  length-replicate, get_or-append_right, get_or-append_left, get_or-append_last, get_or-set_self,
  get_or-set_ne, get_or-replicate, eq_of_get_or, All-get_or, All-append, All-set, take, drop,
  take-append, drop-append, set-append, eq_tabulate, ◌>>=◌, ◌>>◌, reject, >>=-eq-some, reject->>,
  some_inj, get_or-map, length-map,
}
use voxel.Base.Assoc.{find, erase}
use voxel.Base.Int.{ℤ, pos, negsuc, to_u32}
use voxel.Blob.{no_cell, UnpackedChunk}
use voxel.Morton.{LocalPos, morton_encode}

-- The lambda `enc`.
unfoldable pub enc : ℤ → ℕ
enc c = bit_and ((to_u32 c + 2 ^ 20) % 2 ^ 32) 0x1FFFFF

unfoldable pub pack_key : ℤ → ℤ → ℤ → ℕ
pack_key cx cy cz = bit_or (bit_or (enc cx * 2 ^ 42 % 2 ^ 64) (enc cy * 2 ^ 21 % 2 ^ 64)) (enc cz)

abbrev pub SolidityWorld : Type 0
SolidityWorld = List (ℕ × UnpackedChunk)

-- `m_chunks[key] = chunk`
unfoldable pub add_chunk : SolidityWorld → ℤ → ℤ → ℤ → UnpackedChunk → SolidityWorld
add_chunk m cx cy cz chunk = let key = pack_key cx cy cz in (key, chunk) ∷ erase ◌==◌ key m

-- `x >> 4`
unfoldable pub chunk_of : ℤ → ℤ
chunk_of (pos n) = pos (n / 2 ^ 4)
chunk_of (negsuc n) = negsuc (n / 2 ^ 4)

-- `x & 15` in two's complement.
unfoldable pub local_of : ℤ → ℕ
local_of (pos n) = n % 16
local_of (negsuc n) = 15 - n % 16

-- The cell of a chunk that was found.
unfoldable pub solid_in : UnpackedChunk → ℤ → ℤ → ℤ → Bool
solid_in chunk x y z =
    let cell = morton_encode (record { x = local_of x; y = local_of y; z = local_of z }) in
    not ((get_or chunk.cells cell no_cell).content == 0)

unfoldable pub solid_at : SolidityWorld → ℤ → ℤ → ℤ → Bool
solid_at m x y z = elim (find ◌==◌ (pack_key (chunk_of x) (chunk_of y) (chunk_of z)) m) [
  | none ↦ false
  | some chunk ↦ solid_in chunk x y z
]

unfoldable pub chunk_count : SolidityWorld → ℕ
chunk_count m = length m
