-- ===== src/Morton/Examples.antt =====
-- The Morton theorems at concrete positions, and runs of the codec.
use voxel.Base.{◌≡◌, refl}
use voxel.Morton.{LocalPos, spread3, morton_encode}

abbrev corner : LocalPos
corner = record { x = 17; y = 3; z = 30 }

encode_corner : morton_encode corner ≡ 0x5933
unfolding morton_encode spread3
encode_corner = refl
