-- ===== src/Base.antt =====
-- Names that the whole library shares: the standard library's, passed on, and those of the
-- children: Boolean tests, lists indexed by native numbers, and the bit operations.
mod Tests
mod Lists
mod Maybe
pub mod Bits
pub mod Assoc
pub mod Int
pub mod Int32
pub mod Loops
pub mod Nest
pub use Tests.*
pub use Lists.*
pub use Maybe.*
pub use Prim.Native.Nat.{
  ℕ, zero, suc, ◌+◌, ◌-◌, ◌*◌, ◌/◌, ◌%◌, ◌^◌, ◌≤◌, ◌<◌, bit_and, bit_or, bit_xor,
}
pub use mathlib.Core.Path.{◌≡◌, refl, sym, ap, ◌∙◌, subst, fun_ext}
pub use mathlib.Core.Logic.{◌≢◌, ◌↔◌, ◌⊎◌, inl, inr}
pub use mathlib.Core.Bool.{Bool, true, false, not, ◌&&◌, ◌||◌}
pub use mathlib.Core.Option.{Option, none, some}
pub use mathlib.Core.List.{List, [], ◌∷◌, ◌++◌, map, append_assoc, append-nil}
pub use native.Mathlib.Omega.{arith}
unfoldable pub use native.Mathlib.Decide.{dec_lt, dec_le, ℕ_discrete}
