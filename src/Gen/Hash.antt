-- ===== src/Gen/Hash.antt =====
-- src/gen/minigen.cpp: the coordinate hashes and what is drawn from them.
pub mod Bounds
use voxel.Base.{
  ℕ, zero, suc, ◌+◌, ◌-◌, ◌*◌, ◌/◌, ◌%◌, ◌^◌, ◌≤◌, ◌<◌, bit_and, bit_or, bit_xor, ◌≡◌, refl, sym,
  ap, ◌∙◌, subst, ◌≢◌, ◌↔◌, ◌⊎◌, inl, inr, Bool, true, false, not, ◌&&◌, ◌||◌, Option, none, some,
  List, [], ◌∷◌, ◌++◌, map, append_assoc, append-nil, arith, dec_lt, dec_le, ℕ_discrete, ltb, leb,
  ◌==◌, if◌then◌else◌, ltb→lt, lt→ltb, ltb-false→le, ==_iff, ==_refl, Bool-cases, Bool-agree,
  Option-cases, length, get_elem?, get_or, set, replicate, All, length-append, length-set,
  length-replicate, get_or-append_right, get_or-append_left, get_or-append_last, get_or-set_self,
  get_or-set_ne, get_or-replicate, eq_of_get_or, All-get_or, All-append, All-set, take, drop,
  take-append, drop-append, set-append, eq_tabulate, ◌>>=◌, ◌>>◌, reject, >>=-eq-some, reject->>,
  some_inj, get_or-map, length-map,
}
use voxel.Base.Int32.{int_add}

abbrev pub height_min : ℕ
height_min = 8

abbrev pub height_max : ℕ
height_max = 24

unfoldable pub splitmix64 : ℕ → ℕ
splitmix64 x0 =
    let x1 = (x0 + 0x9E3779B97F4A7C15) % 2 ^ 64 in
    let x2 = bit_xor x1 (x1 / 2 ^ 30) * 0xBF58476D1CE4E5B9 % 2 ^ 64 in
    let x3 = bit_xor x2 (x2 / 2 ^ 27) * 0x94D049BB133111EB % 2 ^ 64 in bit_xor x3 (x3 / 2 ^ 31)

unfoldable pub hash_coords : ℕ → ℕ → ℕ → ℕ → ℕ → ℕ
hash_coords seed a b c salt =
    let x = splitmix64 (bit_xor (bit_xor seed salt) (bit_or (a * 2 ^ 32 % 2 ^ 64) b)) in
    splitmix64 (bit_xor x c)

abbrev pub salt_height : ℕ
salt_height = 0x484549474854

abbrev pub salt_anchor : ℕ
salt_anchor = 0x414E43484F52

abbrev pub salt_trunk : ℕ
salt_trunk = 0x5452554E4B

abbrev pub salt_deco : ℕ
salt_deco = 0x4445434F

unfoldable pub trunk_height : ℕ → ℕ → ℕ → ℕ
trunk_height seed wx wz = 4 + hash_coords seed wx wz 0 salt_trunk % 3

unfoldable pub surface_height : ℕ → ℕ → ℕ → ℕ
surface_height seed wx wz =
    height_min + hash_coords seed wx wz 0 salt_height % (height_max - height_min)

unfoldable pub is_anchor : ℕ → ℕ → ℕ → Bool
is_anchor seed wx wz = hash_coords seed wx wz (surface_height seed wx wz) salt_anchor % 48 == 0

unfoldable pub anchor_order_key : ℕ → ℕ → ℕ
anchor_order_key wx wz =
    let ux = bit_xor wx 0x80000000 in
    let uz = bit_xor wz 0x80000000 in bit_or (uz * 2 ^ 32 % 2 ^ 64) ux
