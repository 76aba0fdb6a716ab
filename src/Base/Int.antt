-- ===== src/Base/Int.antt =====
-- The signed integers over the native numbers, and the 32-bit words that stand for them.
use Prim.Native.Nat.{ℕ, ◌-◌, ◌%◌, ◌^◌, ◌<◌}
use mathlib.Core.Bool.{Bool, true, false}
use voxel.Base.Tests.{ltb, ◌==◌}

-- `negsuc n` is - (n + 1).
pub data ℤ : Type 0 where
  pos : ℕ → ℤ
  negsuc : ℕ → ℤ

abbrev pub ltb_int : ℤ → ℤ → Bool
ltb_int (pos m) (pos n) = ltb m n
ltb_int (pos m) (negsuc n) = false
ltb_int (negsuc m) (pos n) = true
ltb_int (negsuc m) (negsuc n) = ltb n m

abbrev pub eqb_int : ℤ → ℤ → Bool
eqb_int (pos m) (pos n) = m == n
eqb_int (pos m) (negsuc n) = false
eqb_int (negsuc m) (pos n) = false
eqb_int (negsuc m) (negsuc n) = m == n

-- The range of a std::int32_t.
abbrev pub IsInt32 : ℤ → Type 0
IsInt32 (pos n) = n < 2 ^ 31
IsInt32 (negsuc n) = n < 2 ^ 31

-- `static_cast<std::uint32_t>(v)`
unfoldable pub to_u32 : ℤ → ℕ
to_u32 (pos n) = n % 2 ^ 32
to_u32 (negsuc n) = 2 ^ 32 - 1 - n % 2 ^ 32
