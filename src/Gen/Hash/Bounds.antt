-- ===== src/Gen/Hash/Bounds.antt =====
-- The bands of the drawn heights, and the order that the anchor keys give.
use voxel.Base.{ℕ, ◌+◌, ◌*◌, ◌%◌, ◌^◌, ◌≤◌, ◌<◌, bit_xor, ◌≡◌, ◌∙◌, ◌&&◌, ◌||◌, arith, ltb, ◌==◌}
use voxel.Base.Bits.{bit_or_high}
use voxel.Base.Bits.Xor.{bit_xor_top}
use voxel.Base.Int32.{IsInt, int_rank, int_lt}
use voxel.Gen.Hash.{surface_height, trunk_height, height_min, height_max, anchor_order_key}

-- For every seed and column, the surface height lies in its band from 8 up to 24, and the trunk is
-- between 4 and 6 cells high.
pub heights-Band :
    (seed wx wz : ℕ)
    → (height_min ≤ surface_height seed wx wz)
      × (surface_height seed wx wz < height_max)
      × (4 ≤ trunk_height seed wx wz)
      × (trunk_height seed wx wz ≤ 6)
unfolding surface_height trunk_height
heights-Band seed wx wz = (omega arith, omega arith, omega arith, omega arith)

rank : (a : ℕ) → IsInt a → bit_xor a 0x80000000 ≡ int_rank a
rank a h = bit_xor_top 31 a h ∙ ground arith

key_sum :
    (wx wz : ℕ) → IsInt wx → IsInt wz → anchor_order_key wx wz ≡ int_rank wz * 2 ^ 32 + int_rank wx
unfolding anchor_order_key
key_sum wx wz hx hz =
    let whole : int_rank wz * 2 ^ 32 % 2 ^ 64 ≡ int_rank wz * 2 ^ 32 = omega arith in
    rw (rank wx hx, rank wz hz, whole) (bit_or_high 32 (int_rank wz) (int_rank wx) (omega arith))

-- The keys of two anchor columns are in the order of the signed coordinates, z first and x second.
pub anchor_order_key-order :
    (ax az bx bz : ℕ)
    → IsInt ax
    → IsInt az
    → IsInt bx
    → IsInt bz
    → ltb (anchor_order_key ax az) (anchor_order_key bx bz)
      ≡ (int_lt az bz || (az == bz && int_lt ax bx))
anchor_order_key-order ax az bx bz hax haz hbx hbz =
    rw (key_sum ax az hax haz, key_sum bx bz hbx hbz) (ground arith)
