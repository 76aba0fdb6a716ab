-- ===== src/Capability/Grammar.antt =====
-- The grammar of a capability text: its segments between the colons, and the rules for one segment.
use voxel.Base.{
  ℕ, suc, ◌+◌, ◌-◌, ◌≤◌, ◌≡◌, refl, ◌≢◌, ◌↔◌, ◌⊎◌, Bool, true, false, not, ◌&&◌, List, [], ◌∷◌,
  ◌++◌, arith, dec_lt, ◌==◌, if◌then◌else◌, ==_iff, length, get_or, All,
}
use voxel.Capability.{
  capability_max_segments, dot, star, colon, capability_char, star_allowed, valid_chars,
  valid_segment,
}

-- The texts between the colons, with the characters of the segment that is being read.
unfoldable pub segments_from : List ℕ → List ℕ → List (List ℕ)
segments_from cur [] = cur ∷ []
segments_from cur (c ∷ cs) =
    let inside = segments_from (cur ++ c ∷ []) cs in
    let behind = segments_from [] cs in if c == colon then cur ∷ behind else inside

abbrev pub segments : List ℕ → List (List ℕ)
segments text = segments_from [] text

-- A lower-case letter, a digit, '_', '.', '*' or '-'.
unfoldable pub IsChar : ℕ → Type 0
IsChar c =
    ((97 ≤ c) × (c ≤ 122)) ⊎ ((48 ≤ c) × (c ≤ 57)) ⊎ (c ≡ 95) ⊎ (c ≡ 46) ⊎ (c ≡ 42) ⊎ (c ≡ 45)

-- No two dots stand together.
abbrev pub DotsApart : ℕ → List ℕ → Type 0
DotsApart a [] = Unit
DotsApart a (b ∷ cs) = (a ≡ dot → b ≢ dot) × DotsApart b cs

-- At most 63 characters, no dot at either end nor two together, and a '*' only in front: where a
-- wildcard may stand, alone or before a dot.
abbrev pub IsSegment : Bool → List ℕ → Type 0
IsSegment wild [] = ⊥
IsSegment wild (c ∷ cs) =
    (suc (length cs) ≤ 63)
    × (c ≢ dot)
    × (get_or (c ∷ cs) (length cs) 0 ≢ dot)
    × IsChar c
    × (c ≡ star → (wild ≡ true) × ((length cs ≡ 0) ⊎ (get_or cs 0 0 ≡ dot)))
    × All (λ d. IsChar d × (d ≢ star)) cs
    × DotsApart c cs

IsChar-iff : (c : ℕ) → (capability_char c ≡ true) ↔ IsChar c
unfolding capability_char IsChar
IsChar-iff c = ground arith

no_later_star : (seg : List ℕ) (wild : Bool) (i : ℕ) → star_allowed seg wild (suc i) ≡ false
unfolding star_allowed
no_later_star seg true i = ground arith
no_later_star seg false i = refl

-- The loop behind the first character.
later_chars :
    (seg : List ℕ) (wild : Bool) (i a : ℕ) (cs : List ℕ)
    → (valid_chars seg wild (suc i) (a == dot) cs ≡ true)
      ↔ (All (λ d. IsChar d × (d ≢ star)) cs × DotsApart a cs)
unfolding valid_chars
later_chars seg wild i a [] = (λ h. (tt, tt), λ h. refl)
later_chars seg wild i a (c ∷ cs) =
    let (to, from) = later_chars seg wild (suc i) c cs in
    let (is_char, char_is) = IsChar-iff c in
    let stop = no_later_star seg wild i in
    let cd = ==_iff c dot in
    let cst = ==_iff c star in let ad = ==_iff a dot in ground (arith, stop, to, from)

first_star :
    (wild : Bool) (c : ℕ) (cs : List ℕ)
    → (star_allowed (c ∷ cs) wild 0 ≡ true)
      ↔ ((wild ≡ true) × ((length cs ≡ 0) ⊎ (get_or cs 0 0 ≡ dot)))
unfolding star_allowed
first_star true c cs = ground arith
first_star false c cs = ground arith

-- A segment is accepted exactly when it obeys the rules.
pub valid_segment_iff :
    (wild : Bool) (seg : List ℕ) → (valid_segment seg wild ≡ true) ↔ IsSegment wild seg
unfolding valid_segment valid_chars
valid_segment_iff wild [] = (λ h. absurd cc, λ s. absurd s)
valid_segment_iff wild (c ∷ cs) =
    let (to, from) = later_chars (c ∷ cs) wild 0 c cs in
    let (is_char, char_is) = IsChar-iff c in
    let (starred, may_star) = first_star wild c cs in
    let last_at : suc (length cs) - 1 ≡ length cs = omega arith in
    let cd = ==_iff c dot in let cst = ==_iff c star in rw last_at (ground arith)

-- Whether the segments pass, the first of them at place `n`.
unfoldable pub pass_from : Bool → ℕ → List (List ℕ) → Bool
pass_from wild n [] = true
pass_from wild n (s ∷ ss) =
    let rest = pass_from wild (n + 1) ss in
    if n == capability_max_segments
    then false
    else if not (valid_segment s (wild && not (n == 0)))
    then false
    else rest

later_pass :
    (wild : Bool) (n : ℕ) (ss : List (List ℕ))
    → 1 ≤ n
    → n ≤ 8
    → (pass_from wild n ss ≡ true) ↔ ((n + length ss ≤ 8) × All (IsSegment wild) ss)
unfolding pass_from
later_pass wild n [] lo hi = (λ h. (omega arith, tt), λ h. refl)
later_pass wild n (s ∷ ss) lo hi = elim (dec_lt n 8) [
  | yes lt ↦
      let (to, from) = later_pass wild (n + 1) ss (omega arith) (omega arith) in
      let (ok, good) = valid_segment_iff wild s in
      let not_full : (n == 8) ≡ false = ground arith in
      let not_first : (n == 0) ≡ false = ground arith in
      let same : (wild && true) ≡ wild = and_true wild in
      rw (not_full, not_first, same)
        (
          λ h.
              let (p, q) = both (valid_segment s wild) _ h in
              let (size, all) = to q in (omega arith, (ok p, all)),
          λ (size, (seg, all)). rw (good seg) (from (omega arith, all)),
        )
  | no ge ↦
      let full : (n == 8) ≡ true = ground arith in
      rw full (λ h. absurd cc, λ (size, all). absurd (omega arith))
]
  where
    and_true : (b : Bool) → (b && true) ≡ b
    and_true true = refl
    and_true false = refl

    both : (p q : Bool) → (if not p then false else q) ≡ true → (p ≡ true) × (q ≡ true)
    both true q h = (refl, h)
    both false q h = absurd cc

-- One to eight segments, the first without wildcards.
abbrev pub AreSegments : Bool → List (List ℕ) → Type 0
AreSegments wild [] = ⊥
AreSegments wild (s ∷ ss) = (length ss ≤ 7) × IsSegment false s × All (IsSegment wild) ss

pub pass_iff :
    (wild : Bool) (s : List ℕ) (ss : List (List ℕ))
    → (pass_from wild 0 (s ∷ ss) ≡ true) ↔ AreSegments wild (s ∷ ss)
unfolding pass_from
pass_iff wild s ss =
    let (to, from) = later_pass wild 1 ss (omega arith) (omega arith) in
    let (ok, good) = valid_segment_iff false s in
    let same : (wild && false) ≡ false = and_false wild in
    rw same (
      λ h.
          let (p, q) = both (valid_segment s false) _ h in
          let (size, all) = to q in (omega arith, ok p, all),
      λ (size, seg, all). rw (good seg) (from (omega arith, all)),
    )
  where
    and_false : (b : Bool) → (b && false) ≡ false
    and_false true = refl
    and_false false = refl

    both : (p q : Bool) → (if not p then false else q) ≡ true → (p ≡ true) × (q ≡ true)
    both true q h = (refl, h)
    both false q h = absurd cc
