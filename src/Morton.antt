-- ===== src/Morton.antt =====
-- src/voxel/morton.hpp: the Morton (Z-order) codec for positions inside a chunk. A u32 is a number
-- below 2 ^ 32; the intermediate shifts stay below it, as `spread3` masks its input first.
pub mod RoundTrip
pub mod Bricks
mod Examples
use voxel.Base.{ℕ, ◌+◌, ◌-◌, ◌*◌, ◌/◌, ◌^◌, bit_and, bit_or}

abbrev pub morton_bits_per_axis : ℕ
morton_bits_per_axis = 5

abbrev pub morton_axis_mask : ℕ
morton_axis_mask = 2 ^ morton_bits_per_axis - 1

-- Bit i of the low 5 bits goes to bit 3 i.
unfoldable pub spread3 : ℕ → ℕ
spread3 v0 =
    let v1 = bit_and v0 morton_axis_mask in
    let v2 = bit_and (bit_or v1 (v1 * 2 ^ 8)) 0x0100F in
    let v3 = bit_and (bit_or v2 (v2 * 2 ^ 4)) 0x010C3 in bit_and (bit_or v3 (v3 * 2 ^ 2)) 0x09249

-- Bits 0, 3, 6, 9 and 12 come back to the low 5 bits.
unfoldable pub gather3 : ℕ → ℕ
gather3 v0 =
    let v1 = bit_and v0 0x09249 in
    let v2 = bit_and (bit_or v1 (v1 / 2 ^ 2)) 0x010C3 in
    let v3 = bit_and (bit_or v2 (v2 / 2 ^ 4)) 0x0100F in
    bit_and (bit_or v3 (v3 / 2 ^ 8)) morton_axis_mask

pub record LocalPos : Type 0 where
  pub x : ℕ
  pub y : ℕ
  pub z : ℕ

unfoldable pub morton_encode : LocalPos → ℕ
morton_encode p = bit_or (bit_or (spread3 p.x) (spread3 p.y * 2 ^ 1)) (spread3 p.z * 2 ^ 2)

unfoldable pub morton_decode : ℕ → LocalPos
morton_decode code = record {
  x = gather3 code;
  y = gather3 (code / 2 ^ 1);
  z = gather3 (code / 2 ^ 2);
}
