-- ===== src/Capability/Examples.antt =====
-- A grant with a wildcard host against a good and a bad request: tests.
use voxel.Base.{ℕ, ◌≡◌, refl, ◌↔◌, true, false, List, [], ◌∷◌}
use voxel.Base.Assoc.{text_eq}
use voxel.Capability.{
  split_validate, capability_grant_covers, wildcard_label_match, split_from, valid_segment,
  valid_chars, star_allowed, capability_char, substr, cover_from, segment_covers, segment_text,
}
use voxel.Capability.Covers.{IsGrammatical, CoversEach, capability_grant_covers_iff}
use voxel.Capability.Grammar.{segments}

-- "n:*.e.c"
abbrev host_grant : List ℕ
host_grant = 110 ∷ 58 ∷ 42 ∷ 46 ∷ 101 ∷ 46 ∷ 99 ∷ []

-- "n:a.e.c:x"
abbrev good_request : List ℕ
good_request = 110 ∷ 58 ∷ 97 ∷ 46 ∷ 101 ∷ 46 ∷ 99 ∷ 58 ∷ 120 ∷ []

-- "n:ae.c"
abbrev bad_request : List ℕ
bad_request = 110 ∷ 58 ∷ 97 ∷ 101 ∷ 46 ∷ 99 ∷ []

good_covered : capability_grant_covers host_grant good_request ≡ true
unfolding capability_grant_covers split_validate split_from valid_segment valid_chars star_allowed
    capability_char substr cover_from segment_covers segment_text wildcard_label_match text_eq
good_covered = refl

bad_refused : capability_grant_covers host_grant bad_request ≡ false
unfolding capability_grant_covers split_validate split_from valid_segment valid_chars star_allowed
    capability_char substr cover_from segment_covers segment_text wildcard_label_match text_eq
bad_refused = refl

covers_example : (capability_grant_covers host_grant good_request ≡ true) ↔ (
    IsGrammatical true host_grant
    × IsGrammatical false good_request
    × CoversEach (segments host_grant) (segments good_request))
covers_example = capability_grant_covers_iff host_grant good_request
