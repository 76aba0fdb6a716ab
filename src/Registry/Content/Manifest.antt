-- ===== src/Registry/Content/Manifest.antt =====
-- The bytes of one entry of a manifest, read back.
use voxel.Base.{
  ℕ, zero, suc, ◌+◌, ◌/◌, ◌%◌, ◌^◌, ◌≤◌, ◌<◌, bit_and, ◌≡◌, refl, ap, ◌∙◌, subst, Bool, true, false,
  some, List, [], ◌∷◌, ◌++◌, append_assoc, arith, ltb, if◌then◌else◌, length, length-append,
  get_or-append_right, take, drop, take-append, drop-append,
}
use voxel.Base.Bits.{bit_or_disjoint, bit_and_mask}
use voxel.Base.Assoc.{contains, text_eq}
use voxel.Bytes.{byte_at}
use voxel.Identity.{is_valid_content_name, colon}
use voxel.Identity.Names.{is_valid_content_name_iff, IsContentName}
use voxel.Registry.Content.{
  Entry, ContentRegistry, put_entry, read_name, name_length, read_entry, add_entry,
}

pub valid-short : (name : List ℕ) → is_valid_content_name name ≡ true → length name < 2 ^ 16
valid-short name h =
    let v : IsContentName name = (is_valid_content_name_iff name).0 h in
    omega (arith, ap length v.2, length-append v.0 (colon ∷ v.1), v.3.1, v.4.1)

drop-step : (xs : List ℕ) (at : ℕ) → at < length xs → drop at xs ≡ byte_at xs at ∷ drop (suc at) xs
drop-step [] at h = elim h [ ]
drop-step (x ∷ xs) zero h = refl
drop-step (x ∷ xs) (suc at) h = drop-step xs at (omega arith)

read_name-take :
    (n : ℕ) (blob : List ℕ) (at : ℕ)
    → at + n ≤ length blob
    → read_name n blob at ≡ take n (drop at blob)
unfolding read_name
read_name-take zero blob at h = refl
read_name-take (suc n) blob at h =
    let next : at + 1 ≡ suc at = omega arith in
    rw (drop-step blob at (omega arith), next)
      (ap (◌∷◌ (byte_at blob at)) (read_name-take n blob (suc at) (omega arith)))

pub read_name-slice :
    (front name rest : List ℕ)
    → read_name (length name) (front ++ (name ++ rest)) (length front) ≡ name
read_name-slice front name rest =
    let l1 = length-append front (name ++ rest) in
    let l2 = length-append name rest in
    read_name-take (length name) (front ++ (name ++ rest)) (length front) (omega arith)
    ∙ rw (drop-append front (name ++ rest)) (take-append name rest)

-- Bytes at the start of what follows a front.
byte_at-front :
    (front bytes : List ℕ) (i : ℕ) → byte_at (front ++ bytes) (length front + i) ≡ byte_at bytes i
byte_at-front front bytes i = get_or-append_right front bytes i 0

-- An entry whose fields are in order is accepted.
accepted :
    (blob name : List ℕ) (at : ℕ) (active : Bool) (r : ContentRegistry)
    → byte_at blob at ≡ (if active then 1 else 0)
    → name_length blob at ≡ length name
    → at + 3 + length name ≤ length blob
    → read_name (length name) blob (at + 3) ≡ name
    → is_valid_content_name name ≡ true
    → contains text_eq name r.by_name ≡ false
    → read_entry blob at r ≡ some (add_entry r name active, at + 3 + length name)
unfolding read_entry
accepted blob name at true r b l s n v c =
    let short : ltb (length blob) (at + 3) ≡ false = ground arith in
    let fits : ltb (length blob) (at + 3 + length name) ≡ false = ground arith in
    rw (l, n, short, b, fits, v, c) refl
accepted blob name at false r b l s n v c =
    let short : ltb (length blob) (at + 3) ≡ false = ground arith in
    let fits : ltb (length blob) (at + 3 + length name) ≡ false = ground arith in
    rw (l, n, short, b, fits, v, c) refl

-- The three bytes in front of a name.
entry_head : Entry → List ℕ
entry_head e =
    (if e.active then 1 else 0)
    ∷ bit_and (length e.name % 2 ^ 16) 0xFF
    ∷ length e.name % 2 ^ 16 / 2 ^ 8 % 256
    ∷ []

length-entry_head : (e : Entry) → length (entry_head e) ≡ 3
unfolding entry_head
length-entry_head e = refl

name_length-entry_head :
    (front rest : List ℕ) (e : Entry)
    → length e.name < 2 ^ 16
    → name_length (front ++ (entry_head e ++ rest)) (length front) ≡ length e.name
unfolding name_length entry_head
name_length-entry_head front rest e h =
    let b1 = byte_at-front front (entry_head e ++ rest) 1 in
    let b2 = byte_at-front front (entry_head e ++ rest) 2 in
    let low = bit_and_mask 8 (length e.name % 2 ^ 16) in
    rw
      (
        b1,
        b2,
        low,
        bit_or_disjoint 8 (length e.name % 2 ^ 16 % 2 ^ 8) (length e.name % 2 ^ 16 / 2 ^ 8 % 256)
            (omega arith),
      )
      (omega arith)

first_byte :
    (front rest : List ℕ) (e : Entry)
    → byte_at (front ++ (entry_head e ++ rest)) (length front) ≡ (if e.active then 1 else 0)
unfolding entry_head
first_byte front rest e =
    let here : length front + 0 ≡ length front = omega arith in
    subst (λ t. byte_at (front ++ (entry_head e ++ rest)) t ≡ (if e.active then 1 else 0)) here
      (byte_at-front front (entry_head e ++ rest) 0)

read_name-entry_head :
    (front rest : List ℕ) (e : Entry)
    → read_name (length e.name) (front ++ (entry_head e ++ (e.name ++ rest))) (length front + 3)
      ≡ e.name
read_name-entry_head front rest e =
    let size : length (front ++ entry_head e) ≡ length front + 3 =
      omega (arith, length-append front (entry_head e), length-entry_head e) in
    let moved = append_assoc front (entry_head e) (e.name ++ rest) in
    subst (λ t. read_name (length e.name) t (length front + 3) ≡ e.name) moved
      (subst
        (λ t. read_name (length e.name) ((front ++ entry_head e) ++ (e.name ++ rest)) t ≡ e.name)
        size (read_name-slice (front ++ entry_head e) e.name rest))

put_entry-split :
    (e : Entry) (rest : List ℕ) → put_entry e ++ rest ≡ entry_head e ++ (e.name ++ rest)
unfolding put_entry entry_head
put_entry-split e rest = refl

pub length-put_entry : (e : Entry) → length (put_entry e) ≡ 3 + length e.name
unfolding put_entry
length-put_entry e = omega arith

-- The fields of an entry that stands behind a front.
pub read_entry-put_entry :
    (front rest : List ℕ) (e : Entry) (r : ContentRegistry)
    → is_valid_content_name e.name ≡ true
    → contains text_eq e.name r.by_name ≡ false
    → read_entry (front ++ (put_entry e ++ rest)) (length front) r
      ≡ some (add_entry r e.name e.active, length front + 3 + length e.name)
read_entry-put_entry front rest e r valid new =
    let back = e.name ++ rest in
    let blob = front ++ (entry_head e ++ back) in
    let size : length blob ≡ length front + (3 + (length e.name + length rest)) = omega (
      arith,
      length-append front (entry_head e ++ back),
      length-append (entry_head e) back,
      length-append e.name rest,
      length-entry_head e,
    ) in
    rw (put_entry-split e rest) (
      accepted blob e.name (length front) e.active r (first_byte front back e)
        (name_length-entry_head front back e (valid-short e.name valid)) (omega (arith, size))
        (read_name-entry_head front rest e) valid new)
