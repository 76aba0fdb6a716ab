-- ===== src/Registry/Content/Permanence.antt =====
-- Bindings of a content registry are permanent.
use voxel.Base.{
  ℕ, zero, suc, ◌+◌, ◌-◌, ◌%◌, ◌^◌, ◌<◌, ◌≡◌, refl, sym, ap, ◌∙◌, subst, ◌≢◌, inl, inr, Bool, true,
  false, ◌||◌, none, some, List, [], ◌∷◌, ◌++◌, arith, ltb, ◌==◌, Bool-cases, length, get_or,
  length-append, get_or-append_last, some_inj,
}
use voxel.Base.Assoc.{find, contains, emplace, text_eq, text_eq-Decides, find-emplace, eqb_refl}
use voxel.Identity.{content_unknown}
use voxel.Registry.Content.{
  Entry, ContentRegistry, no_entry, set_active, add_entry, activate, register_content, unknown_id,
  id_of, name_of, is_active, registry_max_entries,
}
use voxel.Registry.Content.Index.{
  Names, index, Fresh, Inv, rejected, revived, added, registration, length-set_active,
}

contains-find :
    (name : List ℕ) (m : Names) → contains text_eq name m ≡ false → find text_eq name m ≡ none
unfolding contains
contains-find name m h = ground arith

find-index_old :
    (m : Names) (k : ℕ) (es : List Entry) (name : List ℕ) (id : ℕ)
    → Fresh m k es
    → find text_eq name m ≡ some id
    → find text_eq name (index m k es) ≡ some id
unfolding index
find-index_old m k [] name id f h = h
find-index_old m k (e ∷ es) name id f h =
    let new = contains-find e.name m f.0.1 in
    let step = find-emplace text_eq text_eq-Decides e.name name ((k + 1) % 2 ^ 32) m new in
    let eq = text_eq-Decides e.name name in
    find-index_old (emplace text_eq e.name ((k + 1) % 2 ^ 32) m) (suc k) es name id f.1
      (ground (arith, h, new))

shift : (k i : ℕ) → suc k + i ≡ k + suc i
shift k i = omega arith

-- A name that the entries bound stands at the place that its id counts.
pub find-index_new :
    (m : Names) (k : ℕ) (es : List Entry) (name : List ℕ) (id : ℕ)
    → Fresh m k es
    → find text_eq name m ≡ none
    → find text_eq name (index m k es) ≡ some id
    → (i : ℕ) × (i < length es) × (id ≡ (k + i + 1) % 2 ^ 32) × ((get_or es i no_entry).name ≡ name)
unfolding index
find-index_new m k [] name id f n h = absurd cc
find-index_new m k (e ∷ es) name id f n h =
    let new = contains-find e.name m f.0.1 in
    let step = find-emplace text_eq text_eq-Decides e.name name ((k + 1) % 2 ^ 32) m new in
    let eq = text_eq-Decides e.name name in
    elim (Bool-cases (text_eq e.name name)) [
      | inl y ↦
          let here =
            find-index_old (emplace text_eq e.name ((k + 1) % 2 ^ 32) m) (suc k) es name
              ((k + 1) % 2 ^ 32) f.1 (step ∙ rw y refl) in
          let first : k + 0 + 1 ≡ k + 1 = omega arith in
          (0, omega arith, rw first (some_inj id ((k + 1) % 2 ^ 32) (sym h ∙ here)), eq.0 y)
      | inr d ↦
          let later =
            find-index_new (emplace text_eq e.name ((k + 1) % 2 ^ 32) m) (suc k) es name id f.1
              (ground (arith, n)) h in
          (
            suc later.0,
            omega (arith, later.1),
            later.2 ∙ ap (λ t. (t + 1) % 2 ^ 32) (shift k later.0),
            later.3,
          )
    ]

pub get_or-set_active :
    (es : List Entry) (i j : ℕ) (b : Bool)
    → (get_or (set_active es i b) j no_entry).name ≡ (get_or es j no_entry).name
unfolding set_active
get_or-set_active [] i j b = refl
get_or-set_active (e ∷ es) zero zero b = refl
get_or-set_active (e ∷ es) zero (suc j) b = refl
get_or-set_active (e ∷ es) (suc i) zero b = refl
get_or-set_active (e ∷ es) (suc i) (suc j) b = get_or-set_active es i j b

set_active_self :
    (es : List Entry) (i : ℕ) (b : Bool)
    → i < length es
    → (get_or (set_active es i b) i no_entry).active ≡ b
unfolding set_active
set_active_self [] i b h = elim h [ ]
set_active_self (e ∷ es) zero b h = refl
set_active_self (e ∷ es) (suc i) b h = set_active_self es i b (omega arith)

-- What a binding shows: the id of the name, the name of the id, and that it is active.
abbrev pub IsBound : ContentRegistry → List ℕ → ℕ → Type 0
IsBound r name id = (id_of r name ≡ id) × (name_of r id ≡ name) × (is_active r id ≡ true)

activated :
    (r : ContentRegistry) (name : List ℕ) (id : ℕ)
    → Inv r
    → find text_eq name r.by_name ≡ some id
    → IsBound (activate r id true) name id
unfolding activate id_of name_of is_active unknown_id find
activated r name id v e =
    let found =
      find-index_new [] 0 r.entries name id v.fresh refl
        (subst (λ m. find text_eq name m ≡ some id) v.indexed e) in
    let i = found.0 in
    let place : id ≡ i + 1 = omega (arith, found.1, found.2, v.bounded) in
    let at : id - 1 ≡ i = omega (arith, place) in
    let size = length-set_active r.entries (id - 1) true in
    let known : (id == content_unknown || ltb (length (set_active r.entries (id - 1) true)) id)
        ≡ false =
      ground (arith, size, place, found.1) in
    let name_at = get_or-set_active r.entries (id - 1) (id - 1) true in
    let flag = set_active_self r.entries (id - 1) true (omega (arith, at, found.1)) in
    (
      rw (id_of, e) refl,
      rw (name_of, unknown_id, known, name_at, at) found.3,
      rw (is_active, unknown_id, known, flag) refl,
    )

added-IsBound :
    (r : ContentRegistry) (name : List ℕ)
    → length r.entries < registry_max_entries
    → find text_eq name r.by_name ≡ none
    → IsBound (add_entry r name true) name ((length r.entries + 1) % 2 ^ 32)
unfolding add_entry id_of name_of is_active unknown_id
added-IsBound r name room none_yet =
    let e : Entry = record { name = name; active = true } in
    let whole : (length r.entries + 1) % 2 ^ 32 ≡ length r.entries + 1 = omega (arith, room) in
    let at : length r.entries + 1 - 1 ≡ length r.entries = omega arith in
    let size = length-append r.entries (e ∷ []) in
    let known : (length r.entries + 1 == content_unknown
          || ltb (length (r.entries ++ e ∷ [])) (length r.entries + 1))
        ≡ false =
      ground (arith, size) in
    let last = get_or-append_last r.entries e no_entry in
    let found =
      find-emplace text_eq text_eq-Decides name name ((length r.entries + 1) % 2 ^ 32) r.by_name
        none_yet in
    let same = eqb_refl text_eq text_eq-Decides name in
    (
      rw (id_of, found, same) refl,
      rw (name_of, unknown_id, whole, known, at, last) refl,
      rw (is_active, unknown_id, whole, known, at, last) refl,
    )

-- A registration that is not refused binds: the id that it returns is the one of the name, it names
-- the name, and it is active, also where a tombstone had put it out of use.
pub register_content-IsBound :
    (r : ContentRegistry) (name : List ℕ)
    → Inv r
    → (register_content r name).1 ≢ content_unknown
    → IsBound (register_content r name).0 name (register_content r name).1
register_content-IsBound r name v ok = elim (registration r name) [
  | rejected q ↦ absurd (ok (ap (λ t. t.1) q))
  | revived id e q ↦ rw q (activated r name id v e)
  | added valid e room q ↦ rw q (added-IsBound r name room e)
]
