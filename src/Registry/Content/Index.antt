-- ===== src/Registry/Content/Index.antt =====
-- What a content registry holds between two calls: the map of names is the one that the entries,
-- added in their order, leave, and no name comes twice.
use voxel.Base.{
  ℕ, zero, suc, ◌+◌, ◌-◌, ◌%◌, ◌^◌, ◌≤◌, ◌<◌, ◌≡◌, refl, sym, ap, ◌∙◌, subst, inl, inr, Bool, true,
  false, Option, none, some, List, [], ◌∷◌, ◌++◌, arith, leb, Bool-cases, length, length-append,
}
use voxel.Base.Assoc.{find, contains, emplace, text_eq}
use voxel.Identity.{is_valid_content_name, content_unknown}
use voxel.Registry.Content.{
  Entry, ContentRegistry, empty_registry, set_active, add_entry, activate, register_content,
  tombstone, unknown_id, registry_max_entries,
}

abbrev pub Names : Type 0
Names = List (List ℕ × ℕ)

-- The map after the entries, from a map that `k` entries left.
unfoldable pub index : Names → ℕ → List Entry → Names
index m k [] = m
index m k (e ∷ es) = index (emplace text_eq e.name ((k + 1) % 2 ^ 32) m) (suc k) es

-- Every entry has a valid name that no earlier one has.
abbrev pub Fresh : Names → ℕ → List Entry → Type 0
Fresh m k [] = Unit
Fresh m k (e ∷ es) =
    ((is_valid_content_name e.name ≡ true) × (contains text_eq e.name m ≡ false))
    × Fresh (emplace text_eq e.name ((k + 1) % 2 ^ 32) m) (suc k) es

pub record Inv (r : ContentRegistry) : Type 0 where
  pub indexed : r.by_name ≡ index [] 0 r.entries
  pub fresh : Fresh [] 0 r.entries
  pub bounded : length r.entries ≤ registry_max_entries

pub empty_registry-Inv : Inv empty_registry
unfolding index
empty_registry-Inv = record { indexed = refl; fresh = tt; bounded = omega arith }

index-append :
    (m : Names) (k : ℕ) (es : List Entry) (e : Entry)
    → index m k (es ++ e ∷ [])
      ≡ emplace text_eq e.name ((k + length es + 1) % 2 ^ 32) (index m k es)
unfolding index
index-append m k [] e = let z : k + 0 ≡ k = omega arith in rw z refl
index-append m k (f ∷ es) e =
    let shift : suc k + length es ≡ k + suc (length es) = omega arith in
    rw (sym shift) (index-append (emplace text_eq f.name ((k + 1) % 2 ^ 32) m) (suc k) es e)

pub Fresh-append :
    (m : Names) (k : ℕ) (es : List Entry) (e : Entry)
    → Fresh m k es
    → is_valid_content_name e.name ≡ true
    → contains text_eq e.name (index m k es) ≡ false
    → Fresh m k (es ++ e ∷ [])
unfolding index
Fresh-append m k [] e f v n = ((v, n), tt)
Fresh-append m k (g ∷ es) e f v n =
    (f.0, Fresh-append (emplace text_eq g.name ((k + 1) % 2 ^ 32) m) (suc k) es e f.1 v n)

-- The flags do not matter to the index.
index-set_active :
    (m : Names) (k : ℕ) (es : List Entry) (i : ℕ) (b : Bool)
    → index m k (set_active es i b) ≡ index m k es
unfolding index set_active
index-set_active m k [] i b = refl
index-set_active m k (e ∷ es) zero b = refl
index-set_active m k (e ∷ es) (suc i) b =
    index-set_active (emplace text_eq e.name ((k + 1) % 2 ^ 32) m) (suc k) es i b

Fresh-set_active :
    (m : Names) (k : ℕ) (es : List Entry) (i : ℕ) (b : Bool)
    → Fresh m k es
    → Fresh m k (set_active es i b)
unfolding set_active
Fresh-set_active m k [] i b f = f
Fresh-set_active m k (e ∷ es) zero b f = f
Fresh-set_active m k (e ∷ es) (suc i) b f =
    (f.0, Fresh-set_active (emplace text_eq e.name ((k + 1) % 2 ^ 32) m) (suc k) es i b f.1)

pub length-set_active :
    (es : List Entry) (i : ℕ) (b : Bool) → length (set_active es i b) ≡ length es
unfolding set_active
length-set_active [] i b = refl
length-set_active (e ∷ es) zero b = refl
length-set_active (e ∷ es) (suc i) b = ap suc (length-set_active es i b)

activate-Inv : (r : ContentRegistry) (id : ℕ) (b : Bool) → Inv r → Inv (activate r id b)
unfolding activate
activate-Inv r id b v = record {
  indexed = v.indexed ∙ sym (index-set_active [] 0 r.entries (id - 1) b);
  fresh = Fresh-set_active [] 0 r.entries (id - 1) b v.fresh;
  bounded = omega (arith, v.bounded, length-set_active r.entries (id - 1) b);
}

pub add_entry-Inv :
    (r : ContentRegistry) (name : List ℕ) (b : Bool)
    → Inv r
    → is_valid_content_name name ≡ true
    → contains text_eq name r.by_name ≡ false
    → length r.entries < registry_max_entries
    → Inv (add_entry r name b)
unfolding add_entry
add_entry-Inv r name b v valid new room =
    let e : Entry = record { name = name; active = b } in
    let start : 0 + length r.entries + 1 ≡ length r.entries + 1 = omega arith in
    record {
      indexed = rw (v.indexed, index-append [] 0 r.entries e, start) refl;
      fresh =
          Fresh-append [] 0 r.entries e v.fresh valid
            (subst (λ m. contains text_eq name m ≡ false) v.indexed new);
      bounded = omega (arith, length-append r.entries (e ∷ []));
    }

-- The outcomes of a registration.
pub data Registered (r : ContentRegistry) (name : List ℕ) : Type 0 where
  rejected : register_content r name ≡ (r, content_unknown) → Registered r name
  revived :
      (id : ℕ)
      → find text_eq name r.by_name ≡ some id
      → register_content r name ≡ (activate r id true, id)
      → Registered r name
  added :
      is_valid_content_name name ≡ true
      → find text_eq name r.by_name ≡ none
      → length r.entries < registry_max_entries
      → register_content r name ≡ (add_entry r name true, (length r.entries + 1) % 2 ^ 32)
      → Registered r name

contains-none :
    (name : List ℕ) (m : Names) → find text_eq name m ≡ none → contains text_eq name m ≡ false
unfolding contains
contains-none name m e = rw (contains, e) refl

registration_with :
    (r : ContentRegistry) (name : List ℕ) (o : Option ℕ)
    → is_valid_content_name name ≡ true
    → find text_eq name r.by_name ≡ o
    → Registered r name
unfolding register_content
registration_with r name (some id) v e = revived id e (rw (register_content, v, e) refl)
registration_with r name none v e =
    elim (Bool-cases (leb registry_max_entries (length r.entries))) [
      | inl full ↦ rejected (rw (register_content, v, e, full) refl)
      | inr room ↦ added v e (ground arith) (rw (register_content, v, e, room) refl)
    ]

pub registration : (r : ContentRegistry) (name : List ℕ) → Registered r name
unfolding register_content
registration r name = elim (Bool-cases (is_valid_content_name name)) [
  | inl v ↦ registration_with r name (find text_eq name r.by_name) v refl
  | inr n ↦ rejected (rw (register_content, n) refl)
]

-- A registration keeps the map of names in step with the entries, whether it adds an entry, revives
-- one or refuses the name.
pub register_content-Inv :
    (r : ContentRegistry) (name : List ℕ) → Inv r → Inv (register_content r name).0
register_content-Inv r name v = elim (registration r name) [
  | rejected q ↦ rw q v
  | revived id e q ↦ rw q (activate-Inv r id true v)
  | added valid e room q ↦
      rw q (add_entry-Inv r name true v valid (contains-none name r.by_name e) room)
]

pub tombstone-Inv : (r : ContentRegistry) (id : ℕ) → Inv r → Inv (tombstone r id).0
unfolding tombstone
tombstone-Inv r id v = elim (Bool-cases (unknown_id r id)) [
  | inl y ↦ rw (tombstone, y) v
  | inr n ↦ rw (tombstone, n) (activate-Inv r id false v)
]
