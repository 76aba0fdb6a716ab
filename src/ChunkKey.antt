-- ===== src/ChunkKey.antt =====
-- The keys of chunks in the store: chunkStoreKey of src/world/chunk_key.hpp.
pub mod Order
mod Examples
use voxel.Base.{
  ℕ, zero, suc, ◌+◌, ◌-◌, ◌*◌, ◌/◌, ◌%◌, ◌^◌, ◌≤◌, ◌<◌, bit_and, bit_or, bit_xor, ◌≡◌, refl, sym,
  ap, ◌∙◌, subst, ◌≢◌, ◌↔◌, ◌⊎◌, inl, inr, Bool, true, false, not, ◌&&◌, ◌||◌, Option, none, some,
  List, [], ◌∷◌, ◌++◌, map, append_assoc, append-nil, arith, dec_lt, dec_le, ℕ_discrete, ltb, leb,
  ◌==◌, if◌then◌else◌, ltb→lt, lt→ltb, ltb-false→le, ==_iff, ==_refl, Bool-cases, Bool-agree,
  Option-cases, length, get_elem?, get_or, set, replicate, All, length-append, length-set,
  length-replicate, get_or-append_right, get_or-append_left, get_or-append_last, get_or-set_self,
  get_or-set_ne, get_or-replicate, eq_of_get_or, All-get_or, All-append, All-set, take, drop,
  take-append, drop-append, set-append, eq_tabulate, ◌>>=◌, ◌>>◌, reject, >>=-eq-some, reject->>,
  some_inj,
}
use voxel.Base.Int.{ℤ, to_u32}

unfoldable pub flipped : ℤ → ℕ
flipped v = bit_xor (to_u32 v) 0x80000000

-- The four bytes that `put` writes, the first on top.
unfoldable pub put_axis : ℤ → List ℕ
put_axis v =
    let f = flipped v in f / 2 ^ 24 % 256 ∷ f / 2 ^ 16 % 256 ∷ f / 2 ^ 8 % 256 ∷ f % 256 ∷ []

unfoldable pub chunk_store_key : ℤ → ℤ → ℤ → List ℕ
chunk_store_key x y z = put_axis x ++ (put_axis y ++ put_axis z)
