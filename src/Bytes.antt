-- ===== src/Bytes.antt =====
-- The little-endian byte helpers: `detail::putU32` to `getU64` of src/world/voxel_blob.hpp, and the
-- lambdas of the same text in src/world/registry.hpp and src/world/lod_pyramid.hpp. A byte vector
-- is a list of numbers below 256. A read outside of the vector is undefined in the source; here it
-- yields 0, and the callers' size checks keep it from happening.
pub mod Laws
pub mod Order
use voxel.Base.{ℕ, zero, suc, ◌+◌, ◌*◌, ◌/◌, ◌^◌, ◌<◌, bit_and, bit_or, List, [], ◌∷◌, ◌++◌, get_or}

abbrev pub IsByte : ℕ → Type 0
IsByte b = b < 256

-- `blob[at]`
abbrev pub byte_at : List ℕ → ℕ → ℕ
byte_at bytes at = get_or bytes at 0

-- `for (i …) out.push_back((v >> (8 * i)) & 0xFF)`, with the rounds that are left and `i`.
unfoldable pub put_le : ℕ → ℕ → ℕ → List ℕ
put_le zero i v = []
put_le (suc n) i v = bit_and (v / 2 ^ (8 * i)) 0xFF ∷ put_le n (i + 1) v

unfoldable pub put_u32 : List ℕ → ℕ → List ℕ
put_u32 out v = out ++ put_le 4 0 v

unfoldable pub put_u64 : List ℕ → ℕ → List ℕ
put_u64 out v = out ++ put_le 8 0 v

-- `for (i …) v |= in[at + i] << (8 * i)`, with the rounds that are left, `i` and `v`.
unfoldable pub get_le : ℕ → ℕ → ℕ → List ℕ → ℕ → ℕ
get_le zero i v bytes at = v
get_le (suc n) i v bytes at =
    get_le n (i + 1) (bit_or v (byte_at bytes (at + i) * 2 ^ (8 * i))) bytes at

unfoldable pub get_u32 : List ℕ → ℕ → ℕ
get_u32 bytes at = get_le 4 0 0 bytes at

unfoldable pub get_u64 : List ℕ → ℕ → ℕ
get_u64 bytes at = get_le 8 0 0 bytes at
