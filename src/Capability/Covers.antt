-- ===== src/Capability/Covers.antt =====
-- What a grant covers, by the grammar of the two texts and their segments.
use voxel.Base.{
  ℕ, suc, ◌+◌, ◌≤◌, ◌≡◌, refl, ap, ◌∙◌, ◌↔◌, inl, inr, Bool, true, false, not, ◌||◌, List, [], ◌∷◌,
  ◌++◌, map, arith, ltb, ◌==◌, if◌then◌else◌, Bool-cases, length,
}
use voxel.Capability.{
  capability_max_length, colon, SegmentRange, split_validate, is_valid_capability_grant,
  is_valid_capability_request, segment_text, capability_grant_covers,
}
use voxel.Capability.Grammar.{segments_from, segments, AreSegments, pass_from, pass_iff}
use voxel.Capability.Laws.{SegmentCovers, Covers, capability_grant_covers_ranges}
use voxel.Capability.Split.{split_from-segments}

-- 1 to 255 characters that make one to eight segments.
abbrev pub IsGrammatical : Bool → List ℕ → Type 0
IsGrammatical wild text = (1 ≤ length text) × (length text ≤ 255) × AreSegments wild (segments text)

-- The segments of a grant cover the first ones of a request.
abbrev pub CoversEach : List (List ℕ) → List (List ℕ) → Type 0
CoversEach [] rs = Unit
CoversEach (g ∷ gs) [] = ⊥
CoversEach (g ∷ gs) (r ∷ rs) = SegmentCovers g r × CoversEach gs rs

segments-cons :
    (cur rest : List ℕ) → (s : List ℕ) × (ss : List (List ℕ)) × (segments_from cur rest ≡ s ∷ ss)
unfolding segments_from
segments-cons cur [] = (cur, [], refl)
segments-cons cur (c ∷ rest) = elim (Bool-cases (c == colon)) [
  | inl y ↦ (cur, segments_from [] rest, rw y refl)
  | inr n ↦ let (s, ss, e) = segments-cons (cur ++ c ∷ []) rest in (s, ss, rw n e)
]

pass_segments :
    (wild : Bool) (text : List ℕ)
    → (pass_from wild 0 (segments text) ≡ true) ↔ AreSegments wild (segments text)
pass_segments wild text = let (s, ss, e) = segments-cons [] text in rw e (pass_iff wild s ss)

split_validate-segments :
    (wild : Bool) (text : List ℕ)
    → (length text == 0 || ltb capability_max_length (length text)) ≡ false
    → map (segment_text text) (split_validate text wild)
      ≡ (if pass_from wild 0 (segments text) then segments text else [])
unfolding split_validate
split_validate-segments wild text fits =
    let rounds : length text + 1 ≡ suc (length text) = omega arith in
    rw (fits, rounds) (split_from-segments wild text [] [] text 0 0 [] refl refl (omega arith))

-- The two outcomes of splitValidate.
data Outcome (wild : Bool) (text : List ℕ) : Type 0 where
  valid :
      IsGrammatical wild text
      → map (segment_text text) (split_validate text wild) ≡ segments text
      → Outcome wild text
  refused : (IsGrammatical wild text → ⊥) → split_validate text wild ≡ [] → Outcome wild text

nothing_split : {A B : Type 0} (f : A → B) (xs : List A) → map f xs ≡ [] → xs ≡ []
nothing_split f [] e = refl
nothing_split f (x ∷ xs) e = absurd cc

outcome_of : (wild : Bool) (text : List ℕ) → Outcome wild text
unfolding split_validate
outcome_of wild text =
    elim (Bool-cases (length text == 0 || ltb capability_max_length (length text))) [
      | inl bad ↦ refused (λ (lo, hi, segs). ground arith) (rw bad refl)
      | inr fits ↦
          let cut = split_validate-segments wild text fits in
          let (to, from) = pass_segments wild text in
          elim (Bool-cases (pass_from wild 0 (segments text))) [
            | inl passes ↦
                valid (ground arith, ground arith, to passes)
                  (cut ∙ ap (λ b. if b then segments text else []) passes)
            | inr fails ↦
                refused (λ (lo, hi, segs). clash (from segs) fails)
                  (nothing_split (segment_text text) (split_validate text wild)
                    (cut ∙ ap (λ b. if b then segments text else []) fails))
          ]
    ]
  where
    clash : {b : Bool} → b ≡ true → b ≡ false → ⊥
    clash t f = cc

CoversEach-Covers :
    (grant request : List ℕ) (gs rs : List SegmentRange)
    → Covers grant request gs rs
      ↔ CoversEach (map (segment_text grant) gs) (map (segment_text request) rs)
CoversEach-Covers grant request [] rs = (λ c. tt, λ c. tt)
CoversEach-Covers grant request (g ∷ gs) [] = (λ c. c, λ c. c)
CoversEach-Covers grant request (g ∷ gs) (r ∷ rs) =
    let (to, from) = CoversEach-Covers grant request gs rs in
    (λ (one, more). (one, to more), λ (one, more). (one, from more))

some_split :
    (wild : Bool) (text : List ℕ)
    → map (segment_text text) (split_validate text wild) ≡ segments text
    → not (length (split_validate text wild) == 0) ≡ true
some_split wild text e = filled (split_validate text wild) (segments-cons [] text) e
  where
    filled :
        (ranges : List SegmentRange)
        → ((s : List ℕ) × (ss : List (List ℕ)) × (segments text ≡ s ∷ ss))
        → map (segment_text text) ranges ≡ segments text
        → not (length ranges == 0) ≡ true
    filled [] (s, ss, f) e = let stop : [] ≡ s ∷ ss = e ∙ f in absurd cc
    filled (r ∷ ranges) f e = ground arith

-- A grant covers a request exactly when both obey the grammar, the request without wildcards and the
-- grant without one in its first segment, and each segment of the grant covers the segment of the
-- request at its place: as "*", as "*.suffix" of a text that ends in the dot and the suffix behind
-- something, or as the same text. A text obeys the grammar when it has 1 to 255 characters and one to
-- eight segments between its colons, each of 1 to 63 letters, digits, '_', '-' and dots, with no dot
-- at either end and no two together; where a wildcard may stand, a '*' may be the whole segment or
-- stand in front of a dot.
pub capability_grant_covers_iff :
    (grant request : List ℕ)
    → (capability_grant_covers grant request ≡ true) ↔ (
        IsGrammatical true grant
        × IsGrammatical false request
        × CoversEach (segments grant) (segments request))
unfolding is_valid_capability_grant is_valid_capability_request
capability_grant_covers_iff grant request =
    let (to, from) = capability_grant_covers_ranges grant request in
    let (each, back) =
      CoversEach-Covers grant request (split_validate grant true) (split_validate request false) in
    elim (outcome_of true grant) [
      | refused bad e ↦ (λ h. absurd (empty_grant e (to h).0), λ (g, r, c). absurd (bad g))
      | valid good e ↦ elim (outcome_of false request) [
        | refused bad f ↦ (λ h. absurd (empty_grant f (to h).1), λ (g, r, c). absurd (bad r))
        | valid fine f ↦ (
          λ h. (good, fine, rw (← e, ← f) (each (to h).2)),
          λ (g, r, c).
              from (some_split true grant e, some_split false request f, back (rw (e, f) c)),
        )
      ]
    ]
  where
    empty_grant : {ranges : List SegmentRange} → ranges ≡ [] → not (length ranges == 0) ≡ true → ⊥
    empty_grant e h = let stop : false ≡ true = rw e at h in cc
