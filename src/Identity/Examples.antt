-- ===== src/Identity/Examples.antt =====
-- Concrete names, handles and UUIDs: tests of the identity codecs.
use voxel.Base.{ℕ, ◌≡◌, refl, ◌↔◌, true, false, some, List, [], ◌∷◌, arith, replicate}
use voxel.Identity.{
  Uuid, is_valid_content_name, make_uuid_v7, format_uuid, parse_uuid, dash, nil_uuid, find_char,
  valid_around, lacks_dash, parse_pairs, v7_bytes,
}
use voxel.Identity.Names.{IsContentName, is_valid_content_name_iff}
use voxel.Identity.Text.{parse_uuid-format_uuid}

-- "a:b1"
abbrev short_name : List ℕ
short_name = 97 ∷ 58 ∷ 98 ∷ 49 ∷ []

abbrev sample_uuid : Uuid
sample_uuid = make_uuid_v7 0x0190_ABCD_EF01 0x123 0x1234_5678_9ABC_DEF0

two_colons_refused : is_valid_content_name (97 ∷ 58 ∷ 58 ∷ 98 ∷ []) ≡ false
unfolding is_valid_content_name find_char valid_around
two_colons_refused = refl

-- The text of 36 dashes is read as the nil UUID.
all_dashes : parse_uuid 0 (replicate 36 dash) ≡ some nil_uuid
unfolding parse_uuid lacks_dash parse_pairs
all_dashes = refl

is_valid_content_name_example : (is_valid_content_name short_name ≡ true) ↔ IsContentName short_name
is_valid_content_name_example = is_valid_content_name_iff short_name

parse-format_example : parse_uuid 0 (format_uuid sample_uuid) ≡ some sample_uuid
unfolding make_uuid_v7 v7_bytes
parse-format_example = parse_uuid-format_uuid 0 sample_uuid (refl, ground arith)
