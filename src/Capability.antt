-- ===== src/Capability.antt =====
-- Capability grants: src/script/capability.hpp. A text is the list of its character codes; the
-- ranges that splitValidate fills are a list, empty where it returns 0.
pub mod Laws
pub mod Grammar
pub mod Split
pub mod Covers
mod Examples
use voxel.Base.{
  ℕ, zero, suc, ◌+◌, ◌-◌, ◌*◌, ◌/◌, ◌%◌, ◌^◌, ◌≤◌, ◌<◌, bit_and, bit_or, bit_xor, ◌≡◌, refl, sym,
  ap, ◌∙◌, subst, ◌≢◌, ◌↔◌, ◌⊎◌, inl, inr, Bool, true, false, not, ◌&&◌, ◌||◌, Option, none, some,
  List, [], ◌∷◌, ◌++◌, map, append_assoc, append-nil, arith, dec_lt, dec_le, ℕ_discrete, ltb, leb,
  ◌==◌, if◌then◌else◌, ltb→lt, lt→ltb, ltb-false→le, ==_iff, ==_refl, Bool-cases, Bool-agree,
  Option-cases, length, get_elem?, get_or, set, replicate, All, length-append, length-set,
  length-replicate, get_or-append_right, get_or-append_left, get_or-append_last, get_or-set_self,
  get_or-set_ne, get_or-replicate, eq_of_get_or, All-get_or, All-append, All-set, take, drop,
  take-append, drop-append, set-append, eq_tabulate, ◌>>=◌, ◌>>◌, reject, >>=-eq-some, reject->>,
  some_inj,
}
use voxel.Base.Assoc.{text_eq}

abbrev pub capability_max_length : ℕ
capability_max_length = 255

abbrev pub capability_max_segments : ℕ
capability_max_segments = 8

abbrev pub capability_segment_max_length : ℕ
capability_segment_max_length = 63

abbrev pub dot : ℕ
dot = 46

abbrev pub star : ℕ
star = 42

abbrev pub colon : ℕ
colon = 58

unfoldable pub capability_char : ℕ → Bool
capability_char c =
    (leb 97 c && leb c 122) || (leb 48 c && leb c 57) || c == 95 || c == dot || c == star || c == 45

-- The tests on a '*' at position `i` of the segment.
unfoldable pub star_allowed : List ℕ → Bool → ℕ → Bool
star_allowed seg wildcard_allowed i =
    if not wildcard_allowed
    then false
    else if not (i == 0)
    then false
    else if not (length seg == 1) && not (get_or seg 1 0 == dot)
    then false
    else true

-- The loop over the characters from position `i` on.
unfoldable pub valid_chars : List ℕ → Bool → ℕ → Bool → List ℕ → Bool
valid_chars seg wildcard_allowed i prev_dot [] = true
valid_chars seg wildcard_allowed i prev_dot (c ∷ cs) =
    let rest = valid_chars seg wildcard_allowed (suc i) (c == dot) cs in
    if not (capability_char c)
    then false
    else if c == dot
    then if prev_dot then false else rest
    else if c == star
    then if star_allowed seg wildcard_allowed i then rest else false
    else rest

unfoldable pub valid_segment : List ℕ → Bool → Bool
valid_segment seg wildcard_allowed =
    if length seg == 0 || ltb capability_segment_max_length (length seg)
    then false
    else if get_or seg 0 0 == dot || get_or seg (length seg - 1) 0 == dot
    then false
    else valid_chars seg wildcard_allowed 0 false seg

pub record SegmentRange : Type 0 where
  pub begin : ℕ
  pub end : ℕ

unfoldable pub substr : List ℕ → ℕ → ℕ → List ℕ
substr text begin count = take count (drop begin text)

-- The loop of splitValidate with the rounds that are left, `i`, `begin` and the ranges so far.
unfoldable pub split_from : List ℕ → Bool → ℕ → ℕ → ℕ → List SegmentRange → List SegmentRange
split_from cap wildcard_ok zero i begin out = out
split_from cap wildcard_ok (suc n) i begin out =
    if not (i == length cap) && not (get_or cap i 0 == colon)
    then split_from cap wildcard_ok n (i + 1) begin out
    else if length out == capability_max_segments
    then []
    else if not
        (valid_segment (substr cap begin (i - begin)) (wildcard_ok && not (length out == 0)))
    then []
    else split_from cap wildcard_ok n (i + 1) (i + 1)
        (out ++ record { begin = begin; end = i } ∷ [])

unfoldable pub split_validate : List ℕ → Bool → List SegmentRange
split_validate cap wildcard_ok =
    if length cap == 0 || ltb capability_max_length (length cap)
    then []
    else split_from cap wildcard_ok (length cap + 1) 0 0 []

unfoldable pub wildcard_label_match : List ℕ → List ℕ → Bool
wildcard_label_match pattern request =
    let suffix = drop 1 pattern in
    if ltb (length request) (length suffix + 1)
    then false
    else if not (text_eq (drop (length request - length suffix) request) suffix)
    then false
    else true

unfoldable pub is_valid_capability_grant : List ℕ → Bool
is_valid_capability_grant grant = not (length (split_validate grant true) == 0)

unfoldable pub is_valid_capability_request : List ℕ → Bool
is_valid_capability_request request = not (length (split_validate request false) == 0)

-- The body of the loop for one pair of segments: whether it goes on.
unfoldable pub segment_covers : List ℕ → List ℕ → Bool
segment_covers g r =
    if text_eq g (star ∷ [])
    then true
    else if leb 2 (length g) && get_or g 0 0 == star && get_or g 1 0 == dot
    then wildcard_label_match g r
    else text_eq g r

-- `text.substr(range.begin, range.end - range.begin)`
unfoldable pub segment_text : List ℕ → SegmentRange → List ℕ
segment_text text range = substr text range.begin (range.end - range.begin)

-- The loop over the grant's segments. The request has as many: the caller tested it.
unfoldable pub cover_from : List ℕ → List ℕ → List SegmentRange → List SegmentRange → Bool
cover_from grant request [] rs = true
cover_from grant request (g ∷ gs) [] = false
cover_from grant request (g ∷ gs) (r ∷ rs) =
    if segment_covers (segment_text grant g) (segment_text request r)
    then cover_from grant request gs rs
    else false

unfoldable pub capability_grant_covers : List ℕ → List ℕ → Bool
capability_grant_covers grant request =
    let gs = split_validate grant true in
    let rs = split_validate request false in
    if length gs == 0 || length rs == 0 || ltb (length rs) (length gs)
    then false
    else cover_from grant request gs rs
