-- ===== src/Capability/Split.antt =====
-- The loop of splitValidate cuts a text at its colons, and what a grant covers in those terms.
use voxel.Base.{
  ℕ, suc, ◌+◌, ◌-◌, ◌≡◌, refl, sym, ap, ◌∙◌, inl, inr, Bool, true, false, not, ◌&&◌, List, [], ◌∷◌,
  ◌++◌, map, append_assoc, append-nil, arith, ◌==◌, if◌then◌else◌, ==_iff, Bool-cases, length,
  get_or, length-append, get_or-append_right, take-append, drop-append,
}
use voxel.Capability.{
  capability_max_segments, colon, valid_segment, SegmentRange, substr, split_from, segment_text,
}
use voxel.Capability.Grammar.{segments_from, pass_from}

map-append : {A B : Type 0} (f : A → B) (xs ys : List A) → map f (xs ++ ys) ≡ map f xs ++ map f ys
map-append f [] ys = refl
map-append f (x ∷ xs) ys = ap (◌∷◌ (f x)) (map-append f xs ys)

-- The texts of the ranges that are found so far, and of those to come when they pass.
abbrev outcome : Bool → List (List ℕ) → List (List ℕ) → List (List ℕ)
outcome passes found more = if passes then found ++ more else []

substr-middle :
    (pre cur rest : List ℕ) → substr (pre ++ (cur ++ rest)) (length pre) (length cur) ≡ cur
unfolding substr
substr-middle pre cur rest = rw (drop-append pre (cur ++ rest)) (take-append cur rest)

get_or_middle : (xs ys : List ℕ) (c : ℕ) → get_or (xs ++ c ∷ ys) (length xs) 0 ≡ c
get_or_middle [] ys c = refl
get_or_middle (x ∷ xs) ys c = get_or_middle xs ys c

-- What stands at the place behind the current segment.
get_or-behind :
    (pre cur rest : List ℕ) (c : ℕ)
    → get_or (pre ++ (cur ++ c ∷ rest)) (length pre + length cur) 0 ≡ c
get_or-behind pre cur rest c =
    get_or-append_right pre (cur ++ c ∷ rest) (length cur) 0 ∙ get_or_middle cur rest c

module _ (wild : Bool) (cap : List ℕ) where
  abbrev texts : List SegmentRange → List (List ℕ)
  texts out = map (segment_text cap) out

  goes_on :
      (n i begin : ℕ) (out : List SegmentRange)
      → (i == length cap) ≡ false
      → (get_or cap i 0 == colon) ≡ false
      → split_from cap wild (suc n) i begin out ≡ split_from cap wild n (i + 1) begin out
  unfolding split_from
  goes_on n i begin out e f = rw (e, f) refl

  ends :
      (n i begin : ℕ) (out : List SegmentRange)
      → (not (i == length cap) && not (get_or cap i 0 == colon)) ≡ false
      → split_from cap wild (suc n) i begin out ≡ (
          if length out == capability_max_segments
          then []
          else if not (valid_segment (substr cap begin (i - begin)) (wild && not (length out == 0)))
          then []
          else split_from cap wild n
              (i + 1)
              (i + 1)
              (out ++ record { begin = begin; end = i } ∷ []))
  unfolding split_from
  ends n i begin out e = rw e refl

  -- A segment ends at `i`, and the rest of the loop is known.
  ended :
      (n i begin : ℕ) (out : List SegmentRange) (cur : List ℕ) (more : List (List ℕ))
      → (not (i == length cap) && not (get_or cap i 0 == colon)) ≡ false
      → substr cap begin (i - begin) ≡ cur
      → texts
          (split_from cap wild n (i + 1) (i + 1) (out ++ record { begin = begin; end = i } ∷ []))
        ≡ outcome (pass_from wild (length out + 1) more) (texts out ++ cur ∷ []) more
      → texts (split_from cap wild (suc n) i begin out)
        ≡ outcome (pass_from wild (length out) (cur ∷ more)) (texts out) (cur ∷ more)
  unfolding pass_from
  ended n i begin out cur more stop here rest =
      ap texts (ends n i begin out stop)
      ∙ elim (Bool-cases (length out == capability_max_segments)) [
        | inl full ↦ rw full refl
        | inr room ↦ elim (Bool-cases (valid_segment cur (wild && not (length out == 0)))) [
          | inr bad ↦ rw (room, here, bad) refl
          | inl good ↦
              rw (room, here, good)
                (rest
                  ∙ ap (λ t. if pass_from wild (length out + 1) more then t else [])
                      (append_assoc (texts out) (cur ∷ []) more))
        ]
      ]

  -- The text is cut in what is done, the current segment, and the rest; `begin` and `i` stand between.
  module _ (pre cur rest : List ℕ) (i begin : ℕ) (out : List SegmentRange)
      (e : cap ≡ pre ++ (cur ++ rest)) (eb : begin ≡ length pre)
      (ei : i ≡ length pre + length cur) where
    size : length cap ≡ i + length rest
    size = ap length e ∙ omega (arith, length-append pre (cur ++ rest), length-append cur rest, ei)

    here : substr cap begin (i - begin) ≡ cur
    here =
        let width : i - begin ≡ length cur = omega arith in
        rw (width, e, eb) (substr-middle pre cur rest)

    one_more : texts (out ++ record { begin = begin; end = i } ∷ []) ≡ texts out ++ cur ∷ []
    unfolding segment_text
    one_more =
        map-append (segment_text cap) out (record { begin = begin; end = i } ∷ [])
        ∙ ap (λ t. texts out ++ t ∷ []) here

  finished :
      (i begin : ℕ) (out : List SegmentRange) (cur : List ℕ)
      → texts (out ++ record { begin = begin; end = i } ∷ []) ≡ texts out ++ cur ∷ []
      → texts
          (split_from cap wild 0 (i + 1) (i + 1) (out ++ record { begin = begin; end = i } ∷ []))
        ≡ outcome (pass_from wild (length out + 1) []) (texts out ++ cur ∷ []) []
  unfolding split_from pass_from
  finished i begin out cur p = p ∙ sym (append-nil (texts out ++ cur ∷ []))

  pub split_from-segments :
      (pre cur rest : List ℕ) (i begin : ℕ) (out : List SegmentRange)
      → cap ≡ pre ++ (cur ++ rest)
      → begin ≡ length pre
      → i ≡ length pre + length cur
      → texts (split_from cap wild (suc (length rest)) i begin out)
        ≡ outcome
            (pass_from wild (length out) (segments_from cur rest))
            (texts out)
            (segments_from cur rest)
  unfolding segments_from
  split_from-segments pre cur [] i begin out e eb ei =
      let at_end : (i == length cap) ≡ true =
        (==_iff i (length cap)).1 (omega (arith, size pre cur [] i begin out e eb ei)) in
      ended 0 i begin out cur [] (rw at_end refl) (here pre cur [] i begin out e eb ei)
        (finished i begin out cur (one_more pre cur [] i begin out e eb ei))
  split_from-segments pre cur (c ∷ rest) i begin out e eb ei = elim (Bool-cases (c == colon)) [
    | inl y ↦ rw y (
        ended (suc (length rest)) i begin out cur (segments_from [] rest)
          (rw (there, y) (and_false _)) (here pre cur (c ∷ rest) i begin out e eb ei)
          (split_from-segments (pre ++ (cur ++ c ∷ [])) [] rest (i + 1) (i + 1)
              (out ++ record { begin = begin; end = i } ∷ []) (e ∙ regroup) grown
              (omega (arith, grown))
            ∙ known))
    | inr n ↦ rw n (
        ap texts (goes_on (suc (length rest)) i begin out inside (rw there n))
        ∙ split_from-segments pre (cur ++ c ∷ []) rest (i + 1) begin out
            (e ∙ ap (λ t. pre ++ t) (sym (append_assoc cur (c ∷ []) rest))) eb
            (omega (arith, length-append cur (c ∷ []))))
  ]
    where
      there : get_or cap i 0 ≡ c
      there = rw (e, ei) (get_or-behind pre cur rest c)

      inside : (i == length cap) ≡ false
      inside = let z = size pre cur (c ∷ rest) i begin out e eb ei in ground (arith, z)

      and_false : (p : Bool) → (p && false) ≡ false
      and_false true = refl
      and_false false = refl

      regroup : pre ++ (cur ++ c ∷ rest) ≡ (pre ++ (cur ++ c ∷ [])) ++ rest
      regroup =
          ap (λ t. pre ++ t) (sym (append_assoc cur (c ∷ []) rest))
          ∙ sym (append_assoc pre (cur ++ c ∷ []) rest)

      grown : i + 1 ≡ length (pre ++ (cur ++ c ∷ []))
      grown = omega (arith, ei, length-append pre (cur ++ c ∷ []), length-append cur (c ∷ []))

      known :
          outcome
            (pass_from wild
              (length (out ++ record { begin = begin; end = i } ∷ []))
              (segments_from [] rest))
            (texts (out ++ record { begin = begin; end = i } ∷ []))
            (segments_from [] rest)
          ≡ outcome
              (pass_from wild (length out + 1) (segments_from [] rest))
              (texts out ++ cur ∷ [])
              (segments_from [] rest)
      known =
          rw
            (
              one_more pre cur (c ∷ rest) i begin out e eb ei,
              length-append out (record { begin = begin; end = i } ∷ []),
            )
            refl
