-- ===== src/Identity.antt =====
-- The identity codecs of src/world/identity.hpp: content names, entity handles and UUIDs. A text
-- is the list of its character codes; a UUID holds the list of its 16 bytes.
pub mod Handles
pub mod Uuids
pub mod Text
pub mod Names
mod Examples
use voxel.Base.{
  ℕ, zero, suc, ◌+◌, ◌-◌, ◌*◌, ◌/◌, ◌%◌, ◌^◌, ◌≤◌, ◌<◌, bit_and, bit_or, bit_xor, ◌≡◌, refl, sym,
  ap, ◌∙◌, subst, ◌≢◌, ◌↔◌, ◌⊎◌, inl, inr, Bool, true, false, not, ◌&&◌, ◌||◌, Option, none, some,
  List, [], ◌∷◌, ◌++◌, map, append_assoc, append-nil, arith, dec_lt, dec_le, ℕ_discrete, ltb, leb,
  ◌==◌, if◌then◌else◌, ltb→lt, lt→ltb, ltb-false→le, ==_iff, ==_refl, Bool-cases, Option-cases,
  length, get_elem?, get_or, set, replicate, All, length-append, length-set, length-replicate,
  get_or-append_right, get_or-append_left, get_or-set_self, get_or-set_ne, get_or-replicate,
  eq_of_get_or, All-get_or, All-append, All-set, take, drop, take-append, drop-append, set-append,
  ◌>>=◌, ◌>>◌, reject, >>=-eq-some, reject->>, some_inj,
}

abbrev pub colon : ℕ
colon = 58

abbrev pub underscore : ℕ
underscore = 95

abbrev pub dash : ℕ
dash = 45

abbrev pub content_unknown : ℕ
content_unknown = 0

-- `name.find(c)`: the position of the first `c`, `none` for npos.
unfoldable pub find_char : ℕ → List ℕ → Option ℕ
find_char c [] = none
find_char c (x ∷ xs) = if x == c then some 0 else find_char c xs >>= λ at. some (suc at)

unfoldable pub ok_char : ℕ → Bool
ok_char c = (leb 97 c && leb c 122) || (leb 48 c && leb c 57) || c == underscore

-- The loop of `okPart`.
unfoldable pub ok_chars : List ℕ → Bool
ok_chars [] = true
ok_chars (c ∷ cs) = if ok_char c then ok_chars cs else false

unfoldable pub ok_part : List ℕ → Bool
ok_part part = if length part == 0 || ltb 64 (length part) then false else ok_chars part

-- The part of isValidContentName after the first colon was found at `at`.
unfoldable pub valid_around : List ℕ → ℕ → Bool
valid_around name at = elim (find_char colon (drop (at + 1) name)) [
  | none ↦ ok_part (take at name) && ok_part (drop (at + 1) name)
  | some _ ↦ false
]

unfoldable pub is_valid_content_name : List ℕ → Bool
is_valid_content_name name = elim (find_char colon name) [
  | none ↦ false
  | some at ↦ valid_around name at
]

pub record EntityHandle : Type 0 where
  pub bits : ℕ

abbrev pub invalid_handle : EntityHandle
invalid_handle = record { bits = 0xFFFFFFFFFFFFFFFF }

unfoldable pub make_handle : ℕ → ℕ → EntityHandle
make_handle index generation = record { bits = bit_or (generation * 2 ^ 32 % 2 ^ 64) index }

unfoldable pub handle_index : EntityHandle → ℕ
handle_index h = bit_and h.bits 0xFFFFFFFF % 2 ^ 32

unfoldable pub handle_generation : EntityHandle → ℕ
handle_generation h = h.bits / 2 ^ 32 % 2 ^ 32

unfoldable pub handle_valid : EntityHandle → Bool
handle_valid h = not (handle_index h == 0xFFFFFFFF)

pub record Uuid : Type 0 where
  pub bytes : List ℕ

abbrev pub nil_uuid : Uuid
nil_uuid = record { bytes = replicate 16 0 }

-- The three fields are masked first; each byte is a cast to eight bits.
unfoldable pub v7_bytes : ℕ → ℕ → ℕ → List ℕ
v7_bytes unix_ms rand_a rand_b =
    unix_ms / 2 ^ 40 % 256
    ∷ unix_ms / 2 ^ 32 % 256
    ∷ unix_ms / 2 ^ 24 % 256
    ∷ unix_ms / 2 ^ 16 % 256
    ∷ unix_ms / 2 ^ 8 % 256
    ∷ unix_ms % 256
    ∷ bit_or 0x70 (rand_a / 2 ^ 8) % 256
    ∷ rand_a % 256
    ∷ bit_or 0x80 (bit_and (rand_b / 2 ^ 56) 0x3F) % 256
    ∷ rand_b / 2 ^ 48 % 256
    ∷ rand_b / 2 ^ 40 % 256
    ∷ rand_b / 2 ^ 32 % 256
    ∷ rand_b / 2 ^ 24 % 256
    ∷ rand_b / 2 ^ 16 % 256
    ∷ rand_b / 2 ^ 8 % 256
    ∷ rand_b % 256
    ∷ []

unfoldable pub make_uuid_v7 : ℕ → ℕ → ℕ → Uuid
make_uuid_v7 unix_ms rand_a rand_b =
    let ms = bit_and unix_ms 0xFFFFFFFFFFFF in
    let a = bit_and rand_a 0x0FFF in
    let b = bit_and rand_b 0x3FFFFFFFFFFFFFFF in record { bytes = v7_bytes ms a b }

unfoldable pub uuid_version : Uuid → ℕ
uuid_version u = get_or u.bytes 6 0 / 2 ^ 4 % 256

unfoldable pub uuid_variant_bits : Uuid → ℕ
uuid_variant_bits u = get_or u.bytes 8 0 / 2 ^ 6 % 256

unfoldable pub uuid_v7_timestamp_ms : Uuid → ℕ
uuid_v7_timestamp_ms u =
    bit_or
      (bit_or
        (bit_or
          (bit_or (bit_or (get_or u.bytes 0 0 * 2 ^ 40) (get_or u.bytes 1 0 * 2 ^ 32))
            (get_or u.bytes 2 0 * 2 ^ 24))
          (get_or u.bytes 3 0 * 2 ^ 16))
        (get_or u.bytes 4 0 * 2 ^ 8))
      (get_or u.bytes 5 0)

-- The loop over the 16 positions of both arrays.
unfoldable pub less_from : List ℕ → List ℕ → Bool
less_from [] ys = false
less_from (x ∷ xs) [] = false
less_from (x ∷ xs) (y ∷ ys) = if not (x == y) then ltb x y else less_from xs ys

unfoldable pub uuid_less : Uuid → Uuid → Bool
uuid_less a b = less_from a.bytes b.bytes

abbrev pub hex_digits : List ℕ
hex_digits = 48 ∷ 49 ∷ 50 ∷ 51 ∷ 52 ∷ 53 ∷ 54 ∷ 55 ∷ 56 ∷ 57 ∷ 97 ∷ 98 ∷ 99 ∷ 100 ∷ 101 ∷ 102 ∷ []

unfoldable pub hex : ℕ → ℕ
hex n = get_or hex_digits n 0

-- The characters that the loop of formatUuid pushes for byte `i`.
unfoldable pub format_byte : ℕ → ℕ → List ℕ
format_byte i b =
    (if i == 4 || i == 6 || i == 8 || i == 10 then dash ∷ [] else [])
    ++ hex (b / 2 ^ 4) ∷ hex (bit_and b 0x0F) ∷ []

unfoldable pub format_from : ℕ → List ℕ → List ℕ
format_from i [] = []
format_from i (b ∷ bs) = format_byte i b ++ format_from (suc i) bs

unfoldable pub format_uuid : Uuid → List ℕ
format_uuid u = format_from 0 u.bytes

-- `none` for the source's -1.
unfoldable pub nibble : ℕ → Option ℕ
nibble c =
    if leb 48 c && leb c 57
    then some (c - 48)
    else if leb 97 c && leb c 102
    then some (c - 97 + 10)
    else if leb 65 c && leb c 70
    then some (c - 65 + 10)
    else none

-- The value that two characters write.
unfoldable pub pair_value : ℕ → ℕ → Option ℕ
pair_value c d = do hi ← nibble c; lo ← nibble d; some (bit_or (hi * 2 ^ 4) lo % 256)

-- The loop over the text from position `i` on. `past` is the character that stands in memory behind
-- the text: `text[i + 1]` reads it when the last character opens a pair.
unfoldable pub parse_pairs : ℕ → List ℕ → ℕ → List ℕ → Option (List ℕ)
parse_pairs past bytes at [] = some bytes
parse_pairs past bytes at (c ∷ []) = elim (c == dash) [
  | true ↦ some bytes
  | false ↦ pair_value c past >>= λ v. some (set bytes at v)
]
parse_pairs past bytes at (c ∷ d ∷ rest) = elim (c == dash) [
  | true ↦ parse_pairs past bytes at (d ∷ rest)
  | false ↦ pair_value c d >>= λ v. parse_pairs past (set bytes at v) (suc at) rest
]

-- `text[at] != '-'`
unfoldable pub lacks_dash : List ℕ → ℕ → Bool
lacks_dash text at = not (get_or text at 0 == dash)

unfoldable pub parse_uuid : ℕ → List ℕ → Option Uuid
parse_uuid past text = do
  reject (
      not (length text == 36)
      || lacks_dash text 8
      || lacks_dash text 13
      || lacks_dash text 18
      || lacks_dash text 23)
  bytes ← parse_pairs past (replicate 16 0) 0 text
  some record { bytes = bytes }
