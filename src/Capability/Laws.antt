-- ===== src/Capability/Laws.antt =====
-- What a grant covers.
use voxel.Base.{
  ℕ, zero, suc, ◌+◌, ◌-◌, ◌≤◌, ◌≡◌, refl, sym, ap, ◌∙◌, subst, ◌↔◌, ◌⊎◌, inl, inr, Bool, true,
  false, ◌&&◌, List, [], ◌∷◌, ◌++◌, arith, ltb, leb, ◌==◌, if◌then◌else◌, Bool-cases, length,
  get_or, length-append, take, drop, drop-append,
}
use voxel.Base.Assoc.{text_eq, text_eq-Decides, eqb_refl}
use voxel.Capability.{
  dot, star, SegmentRange, split_validate, wildcard_label_match, is_valid_capability_grant,
  is_valid_capability_request, segment_covers, segment_text, cover_from, capability_grant_covers,
}

-- The text ends in the suffix, behind at least one more character.
abbrev pub EndsIn : List ℕ → List ℕ → Type 0
EndsIn suffix text = (label : List ℕ) × (1 ≤ length label) × (text ≡ label ++ suffix)

take-drop : (n : ℕ) (xs : List ℕ) → take n xs ++ drop n xs ≡ xs
take-drop zero xs = refl
take-drop (suc n) [] = refl
take-drop (suc n) (x ∷ xs) = ap (◌∷◌ x) (take-drop n xs)

length-take_le : (n : ℕ) (xs : List ℕ) → n ≤ length xs → length (take n xs) ≡ n
length-take_le zero xs h = refl
length-take_le (suc n) [] h = absurd (omega arith)
length-take_le (suc n) (x ∷ xs) h = ap suc (length-take_le n xs (omega arith))

match_facts :
    (tail request : List ℕ)
    → wildcard_label_match (star ∷ tail) request ≡ true
    → (length tail + 1 ≤ length request) × (drop (length request - length tail) request ≡ tail)
unfolding wildcard_label_match
match_facts tail request h =
    let same = text_eq-Decides (drop (length request - length tail) request) tail in ground arith

match_ends :
    (tail label : List ℕ)
    → 1 ≤ length label
    → wildcard_label_match (star ∷ tail) (label ++ tail) ≡ true
unfolding wildcard_label_match
match_ends tail label h =
    let size = length-append label tail in
    let at : length (label ++ tail) - length tail ≡ length label = omega (arith, size) in
    let long : ltb (length (label ++ tail)) (length tail + 1) ≡ false = ground (arith, size) in
    rw (long, at, drop-append label tail, eqb_refl text_eq text_eq-Decides tail) refl

-- A pattern "*.suffix" matches exactly the requests that end in ".suffix" behind at least one more
-- character: not the suffix alone, not a text without the dot, not one that goes on behind it.
pub wildcard_label_match_iff :
    (suffix request : List ℕ)
    → (wildcard_label_match (star ∷ dot ∷ suffix) request ≡ true) ↔ EndsIn (dot ∷ suffix) request
wildcard_label_match_iff suffix request = (
  λ h.
      let facts = match_facts (dot ∷ suffix) request h in
      let k = length request - length (dot ∷ suffix) in
      (
        take k request,
        omega (arith, facts.0, length-take_le k request (omega arith)),
        sym (take-drop k request) ∙ ap (λ t. take k request ++ t) facts.1,
      ),
  λ w. rw w.2 (match_ends (dot ∷ suffix) w.0 w.1),
)

-- One segment of a grant against one of a request.
abbrev pub SegmentCovers : List ℕ → List ℕ → Type 0
SegmentCovers g r =
    (g ≡ star ∷ [])
    ⊎ (((suffix : List ℕ) × (g ≡ star ∷ dot ∷ suffix) × EndsIn (dot ∷ suffix) r) ⊎ (g ≡ r))

-- The grant's segments cover the first ones of the request.
abbrev pub Covers : List ℕ → List ℕ → List SegmentRange → List SegmentRange → Type 0
Covers grant request [] rs = Unit
Covers grant request (g ∷ gs) [] = ⊥
Covers grant request (g ∷ gs) (r ∷ rs) =
    SegmentCovers (segment_text grant g) (segment_text request r) × Covers grant request gs rs

pattern_view :
    (g : List ℕ)
    → (leb 2 (length g) && get_or g 0 0 == star && get_or g 1 0 == dot) ≡ true
    → (suffix : List ℕ) × (g ≡ star ∷ dot ∷ suffix)
pattern_view [] h = absurd cc
pattern_view (a ∷ []) h = absurd cc
pattern_view (a ∷ b ∷ suffix) h =
    let first : a ≡ star = ground arith in
    let second : b ≡ dot = ground arith in (suffix, rw (first, second) refl)

both_true : (b x : Bool) → (if b then x else false) ≡ true → (b ≡ true) × (x ≡ true)
both_true true x h = (refl, h)
both_true false x h = absurd cc

abbrev is_pattern : List ℕ → Bool
is_pattern g = leb 2 (length g) && get_or g 0 0 == star && get_or g 1 0 == dot

segment_covered : (g r : List ℕ) → segment_covers g r ≡ true → SegmentCovers g r
unfolding segment_covers
segment_covered g r h = elim (Bool-cases (text_eq g (star ∷ []))) [
  | inl y ↦ inl ((text_eq-Decides g (star ∷ [])).0 y)
  | inr n ↦ elim (Bool-cases (is_pattern g)) [
    | inl p ↦
        let view = pattern_view g p in
        let matches : wildcard_label_match g r ≡ true =
          by_pattern (text_eq g (star ∷ [])) (is_pattern g) n p h in
        inr (
          inl (
            view.0,
            view.1,
            (wildcard_label_match_iff view.0 r).0
                (subst (λ t. wildcard_label_match t r ≡ true) view.1 matches),
          ))
    | inr q ↦
        inr (inr ((text_eq-Decides g r).0 (by_text (text_eq g (star ∷ [])) (is_pattern g) n q h)))
  ]
]
  where
    by_pattern :
        (a b : Bool)
        → a ≡ false
        → b ≡ true
        → (if a then true else if b then wildcard_label_match g r else text_eq g r) ≡ true
        → wildcard_label_match g r ≡ true
    by_pattern a b e f k = ground arith

    by_text :
        (a b : Bool)
        → a ≡ false
        → b ≡ false
        → (if a then true else if b then wildcard_label_match g r else text_eq g r) ≡ true
        → text_eq g r ≡ true
    by_text a b e f k = ground arith

star_covers : (r : List ℕ) → segment_covers (star ∷ []) r ≡ true
unfolding segment_covers text_eq
star_covers r = refl

pattern_covers :
    (suffix r : List ℕ) → EndsIn (dot ∷ suffix) r → segment_covers (star ∷ dot ∷ suffix) r ≡ true
unfolding segment_covers text_eq
pattern_covers suffix r w = rw ((wildcard_label_match_iff suffix r).1 w) (ground arith)

text_covers : (g : List ℕ) → is_pattern g ≡ false → segment_covers g g ≡ true
unfolding segment_covers
text_covers g n = ground (arith, n, eqb_refl text_eq text_eq-Decides g)

self_covers : (g : List ℕ) → segment_covers g g ≡ true
self_covers g = elim (Bool-cases (is_pattern g)) [
  | inl p ↦
      let view = pattern_view g p in
      rw view.1 (pattern_covers view.0 (star ∷ dot ∷ view.0) (star ∷ [], omega arith, refl))
  | inr n ↦ text_covers g n
]

segment_covers_iff : (g r : List ℕ) → (segment_covers g r ≡ true) ↔ SegmentCovers g r
segment_covers_iff g r = (segment_covered g r, covering)
  where
    covering : SegmentCovers g r → segment_covers g r ≡ true
    covering (inl e) = rw e (star_covers r)
    covering (inr (inl (suffix, e, w))) = rw e (pattern_covers suffix r w)
    covering (inr (inr e)) = rw (sym e) (self_covers g)

cover_from_iff :
    (grant request : List ℕ) (gs rs : List SegmentRange)
    → (cover_from grant request gs rs ≡ true) ↔ Covers grant request gs rs
unfolding cover_from
cover_from_iff grant request [] rs = (λ h. tt, λ c. refl)
cover_from_iff grant request (g ∷ gs) [] = (λ h. cc, λ c. absurd c)
cover_from_iff grant request (g ∷ gs) (r ∷ rs) =
    let one = segment_covers_iff (segment_text grant g) (segment_text request r) in
    let rest = cover_from_iff grant request gs rs in
    (
      λ h.
          let both =
            both_true (segment_covers (segment_text grant g) (segment_text request r))
              (cover_from grant request gs rs) h in
          (one.0 both.0, rest.0 both.1),
      λ c. rw (one.1 c.0) (rest.1 c.1),
    )

Covers-length :
    (grant request : List ℕ) (gs rs : List SegmentRange)
    → Covers grant request gs rs
    → length gs ≤ length rs
Covers-length grant request [] rs c = omega arith
Covers-length grant request (g ∷ gs) [] c = absurd c
Covers-length grant request (g ∷ gs) (r ∷ rs) c =
    let rest = Covers-length grant request gs rs c.1 in omega arith

-- The same by the ranges that the code computes.
pub capability_grant_covers_ranges :
    (grant request : List ℕ)
    → (capability_grant_covers grant request ≡ true) ↔ (
        (is_valid_capability_grant grant ≡ true)
        × (is_valid_capability_request request ≡ true)
        × Covers grant request (split_validate grant true) (split_validate request false))
unfolding capability_grant_covers is_valid_capability_grant is_valid_capability_request
capability_grant_covers_ranges grant request =
    let gs = split_validate grant true in
    let rs = split_validate request false in
    let cover = cover_from_iff grant request gs rs in
    let fits = Covers-length grant request gs rs in ground arith
