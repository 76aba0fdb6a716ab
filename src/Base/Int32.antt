-- ===== src/Base/Int32.antt =====
-- The C++ `int` as its 32-bit pattern, a number below 2 ^ 32: what a cast to `std::uint32_t` gives.
-- The arithmetic wraps; the code stays in a bounded domain, where it does not.
use Prim.Native.Nat.{ℕ, ◌+◌, ◌-◌, ◌*◌, ◌%◌, ◌^◌, ◌<◌}
use mathlib.Core.Bool.{Bool, not}
use voxel.Base.Int.{ℤ, pos, negsuc}
use voxel.Base.Tests.{ltb, if◌then◌else◌}

abbrev pub IsInt : ℕ → Type 0
IsInt a = a < 2 ^ 32

abbrev pub int_add : ℕ → ℕ → ℕ
int_add a b = (a + b) % 2 ^ 32

abbrev pub int_neg : ℕ → ℕ
int_neg a = (2 ^ 32 - a) % 2 ^ 32

abbrev pub int_sub : ℕ → ℕ → ℕ
int_sub a b = (a + (2 ^ 32 - b)) % 2 ^ 32

abbrev pub int_mul : ℕ → ℕ → ℕ
int_mul a b = a * b % 2 ^ 32

-- The sign bit turned around maps the order of the ints to that of their patterns.
abbrev pub int_rank : ℕ → ℕ
int_rank a = (a + 2 ^ 31) % 2 ^ 32

abbrev pub int_lt : ℕ → ℕ → Bool
int_lt a b = ltb (int_rank a) (int_rank b)

-- `a < 0 ? -a : a`
abbrev pub int_abs : ℕ → ℕ
int_abs a = if int_lt a 0 then int_neg a else a

abbrev pub int_le : ℕ → ℕ → Bool
int_le a b = not (int_lt b a)

-- How often `for (int c = a; c <= b; ++c)` runs.
abbrev pub int_rounds : ℕ → ℕ → ℕ
int_rounds a b = int_rank b + 1 - int_rank a

-- The signed number of a pattern.
unfoldable pub int_value : ℕ → ℤ
int_value a = if ltb a (2 ^ 31) then pos a else negsuc (2 ^ 32 - 1 - a)
