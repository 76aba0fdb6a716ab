-- ===== src/Identity/Names.antt =====
-- The grammar of content names: isValidContentName accepts exactly two parts around one colon.
use voxel.Base.{
  ℕ, suc, ◌+◌, ◌≤◌, ◌≡◌, refl, sym, ap, ◌≢◌, ◌↔◌, ◌⊎◌, inl, inr, true, false, Option, none, some,
  List, [], ◌∷◌, ◌++◌, arith, ◌==◌, if◌then◌else◌, ==_refl, Bool-cases, length, All, take, drop,
  take-append, ◌>>=◌,
}
use voxel.Identity.{
  colon, underscore, find_char, ok_char, ok_chars, ok_part, valid_around, is_valid_content_name,
}

-- A lower-case letter, a digit or an underscore.
abbrev pub IsNameChar : ℕ → Type 0
IsNameChar c = ((97 ≤ c) × (c ≤ 122)) ⊎ (((48 ≤ c) × (c ≤ 57)) ⊎ (c ≡ underscore))

-- One to 64 characters of a name.
abbrev pub IsPart : List ℕ → Type 0
IsPart part = (1 ≤ length part) × (length part ≤ 64) × All IsNameChar part

abbrev pub IsContentName : List ℕ → Type 0
IsContentName name =
    (space : List ℕ) × (id : List ℕ) × (name ≡ space ++ colon ∷ id) × IsPart space × IsPart id

ok_char_iff : (c : ℕ) → (ok_char c ≡ true) ↔ IsNameChar c
unfolding ok_char
ok_char_iff c = ground arith

ok_chars_iff : (cs : List ℕ) → (ok_chars cs ≡ true) ↔ All IsNameChar cs
unfolding ok_chars
ok_chars_iff [] = (λ h. tt, λ h. refl)
ok_chars_iff (c ∷ cs) = ground (arith, ok_char_iff c, ok_chars_iff cs)

ok_part_iff : (part : List ℕ) → (ok_part part ≡ true) ↔ IsPart part
unfolding ok_part
ok_part_iff part = ground (arith, ok_chars_iff part)

-- A front without the character is skipped.
find_char-front :
    (c : ℕ) (xs ys : List ℕ) → All (λ x. x ≢ c) xs → find_char c (xs ++ c ∷ ys) ≡ some (length xs)
unfolding find_char
find_char-front c [] ys p = rw (==_refl c) refl
find_char-front c (x ∷ xs) ys p = ground (arith, p.0, find_char-front c xs ys p.1)

find_char-none : (c : ℕ) (xs : List ℕ) → All (λ x. x ≢ c) xs → find_char c xs ≡ none
unfolding find_char
find_char-none c [] p = refl
find_char-none c (x ∷ xs) p = ground (arith, p.0, find_char-none c xs p.1)

-- The first character is the one, or the rest was searched.
find_char_cases :
    (c x : ℕ) (o : Option ℕ) (at : ℕ)
    → (if x == c then some 0 else o >>= λ n. some (suc n)) ≡ some at
    → ((x ≡ c) × (at ≡ 0)) ⊎ ((n : ℕ) × (at ≡ suc n) × (o ≡ some n))
find_char_cases c x none at h = inl (ground arith)
find_char_cases c x (some n) at h = elim (Bool-cases (x == c)) [
  | inl y ↦ inl (ground arith)
  | inr d ↦ inr (n, ground arith, refl)
]

-- What was found stands at that place.
find_char-some :
    (c : ℕ) (xs : List ℕ) (at : ℕ)
    → find_char c xs ≡ some at
    → xs ≡ take at xs ++ c ∷ drop (suc at) xs
unfolding find_char
find_char-some c [] at h = cc
find_char-some c (x ∷ xs) at h = elim (find_char_cases c x (find_char c xs) at h) [
  | inl first ↦ rw first.1 (ap (λ y. y ∷ xs) first.0)
  | inr later ↦ rw later.1 (ap (◌∷◌ x) (find_char-some c xs later.0 later.2))
]

name_chars-no_colon : (cs : List ℕ) → All IsNameChar cs → All (λ x. x ≢ colon) cs
name_chars-no_colon [] p = tt
name_chars-no_colon (c ∷ cs) p = (ground (arith, p.0), name_chars-no_colon cs p.1)

drop-past : (c : ℕ) (xs ys : List ℕ) → drop (suc (length xs)) (xs ++ c ∷ ys) ≡ ys
drop-past c [] ys = refl
drop-past c (x ∷ xs) ys = drop-past c xs ys

valid_around_iff :
    (name : List ℕ) (at : ℕ)
    → (valid_around name at ≡ true) ↔ (
        (find_char colon (drop (at + 1) name) ≡ none)
        × IsPart (take at name)
        × IsPart (drop (at + 1) name))
unfolding valid_around
valid_around_iff name at =
    ground (arith, ok_part_iff (take at name), ok_part_iff (drop (at + 1) name))

valid_found :
    (name : List ℕ) (o : Option ℕ)
    → o ≡ find_char colon name
    → elim o [ none ↦ false | some at ↦ valid_around name at ] ≡ true
    → IsContentName name
valid_found name none e h = cc
valid_found name (some at) e h =
    let parts = (valid_around_iff name at).0 h in
    let next : at + 1 ≡ suc at = omega arith in
    (
      take at name,
      drop (at + 1) name,
      rw next (find_char-some colon name at (sym e)),
      parts.1,
      parts.2,
    )

valid_parts : (name : List ℕ) → is_valid_content_name name ≡ true → IsContentName name
unfolding is_valid_content_name
valid_parts name h = valid_found name (find_char colon name) refl h

parts_valid :
    (space id : List ℕ)
    → IsPart space
    → IsPart id
    → is_valid_content_name (space ++ colon ∷ id) ≡ true
unfolding is_valid_content_name
parts_valid space id p q =
    let at = find_char-front colon space id (name_chars-no_colon space p.2) in
    let next : length space + 1 ≡ suc (length space) = omega arith in
    let whole : drop (length space + 1) (space ++ colon ∷ id) ≡ id =
      rw next (drop-past colon space id) in
    let front : take (length space) (space ++ colon ∷ id) ≡ space =
      take-append space (colon ∷ id) in
    let none_after = find_char-none colon id (name_chars-no_colon id q.2) in
    rw (is_valid_content_name, at)
      ((valid_around_iff (space ++ colon ∷ id) (length space)).1
        (rw whole none_after, rw front p, rw whole q))

-- isValidContentName accepts exactly the texts made of two parts around a colon, each of 1 to 64
-- lower-case letters, digits and underscores.
pub is_valid_content_name_iff :
    (name : List ℕ) → (is_valid_content_name name ≡ true) ↔ IsContentName name
is_valid_content_name_iff name = (valid_parts name, λ w. rw w.2 (parts_valid w.0 w.1 w.3 w.4))
