-- ===== src/Registry/Content/History.antt =====
-- Histories of a content registry: what registrations and tombstones leave as it is.
use voxel.Base.{
  ℕ, ◌+◌, ◌-◌, ◌%◌, ◌^◌, ◌≡◌, refl, ◌∙◌, subst, ◌≢◌, inl, inr, Bool, true, false, none, some, List,
  [], ◌∷◌, arith, Bool-cases, length, get_or, length-append, get_or-append_left,
}
use voxel.Base.Assoc.{find, text_eq, text_eq-Decides, find-emplace}
use voxel.Identity.{content_unknown}
use voxel.Registry.Content.{
  Entry, ContentRegistry, no_entry, add_entry, activate, register_content, unknown_id, tombstone,
  id_of, name_of,
}
use voxel.Registry.Content.Index.{
  Inv, rejected, revived, added, registration, register_content-Inv, tombstone-Inv,
  length-set_active,
}
use voxel.Registry.Content.Permanence.{find-index_new, get_or-set_active}

pub data Call : Type 0 where
  registers : List ℕ → Call
  buries : ℕ → Call

unfoldable pub step : ContentRegistry → Call → ContentRegistry
step r (registers name) = (register_content r name).0
step r (buries id) = (tombstone r id).0

unfoldable pub run : ContentRegistry → List Call → ContentRegistry
run r [] = r
run r (c ∷ cs) = run (step r c) cs

-- What stays: the id and the name of a binding.
abbrev pub Pairs : ContentRegistry → List ℕ → ℕ → Type 0
Pairs r name id =
    (find text_eq name r.by_name ≡ some id)
    × (unknown_id r id ≡ false)
    × ((get_or r.entries (id - 1) no_entry).name ≡ name)

Pairs-activate :
    (r : ContentRegistry) (name : List ℕ) (id j : ℕ) (b : Bool)
    → Pairs r name id
    → Pairs (activate r j b) name id
unfolding activate unknown_id
Pairs-activate r name id j b p =
    let size = length-set_active r.entries (j - 1) b in
    let same = get_or-set_active r.entries (j - 1) (id - 1) b in
    (p.0, ground (arith, size, p.1), same ∙ p.2)

Pairs-add_entry :
    (r : ContentRegistry) (name new : List ℕ) (id : ℕ) (b : Bool)
    → find text_eq new r.by_name ≡ none
    → Pairs r name id
    → Pairs (add_entry r new b) name id
unfolding add_entry unknown_id
Pairs-add_entry r name new id b e p =
    let x : Entry = record { name = new; active = b } in
    let size = length-append r.entries (x ∷ []) in
    let step =
      find-emplace text_eq text_eq-Decides new name ((length r.entries + 1) % 2 ^ 32) r.by_name e in
    let eq = text_eq-Decides new name in
    let old = get_or-append_left r.entries (x ∷ []) (id - 1) no_entry (ground (arith, p.1)) in
    (ground (arith, p.0), ground (arith, size, p.1), rw old p.2)

Pairs-step :
    (r : ContentRegistry) (c : Call) (name : List ℕ) (id : ℕ)
    → Pairs r name id
    → Pairs (step r c) name id
unfolding step tombstone
Pairs-step r (registers new) name id p = elim (registration r new) [
  | rejected q ↦ rw (step, q) p
  | revived j e q ↦ rw (step, q) (Pairs-activate r name id j true p)
  | added valid e room q ↦ rw (step, q) (Pairs-add_entry r name new id true e p)
]
Pairs-step r (buries j) name id p = elim (Bool-cases (unknown_id r j)) [
  | inl y ↦ rw (step, tombstone, y) p
  | inr n ↦ rw (step, tombstone, n) (Pairs-activate r name id j false p)
]

Pairs-run :
    (r : ContentRegistry) (cs : List Call) (name : List ℕ) (id : ℕ)
    → Pairs r name id
    → Pairs (run r cs) name id
unfolding run
Pairs-run r [] name id p = p
Pairs-run r (c ∷ cs) name id p = Pairs-run (step r c) cs name id (Pairs-step r c name id p)

id_of-Pairs :
    (r : ContentRegistry) (name : List ℕ) (id : ℕ)
    → Inv r
    → id_of r name ≡ id
    → id ≢ content_unknown
    → Pairs r name id
unfolding id_of unknown_id find
id_of-Pairs r name id v e ne =
    let bound : find text_eq name r.by_name ≡ some id = ground (arith, e, ne) in
    let found =
      find-index_new [] 0 r.entries name id v.fresh refl
        (subst (λ m. find text_eq name m ≡ some id) v.indexed bound) in
    let place : id ≡ found.0 + 1 = omega (arith, found.1, found.2, v.bounded) in
    let at : id - 1 ≡ found.0 = omega (arith, place) in
    (bound, ground (arith, place, found.1), rw at found.3)

-- Bindings are permanent: through any history of registrations and tombstones a name that has an id
-- keeps it, and the id keeps its name.
pub run-keeps :
    (r : ContentRegistry) (cs : List Call) (name : List ℕ) (id : ℕ)
    → Inv r
    → id_of r name ≡ id
    → id ≢ content_unknown
    → (id_of (run r cs) name ≡ id) × (name_of (run r cs) id ≡ name)
unfolding id_of name_of
run-keeps r cs name id v e ne =
    let kept = Pairs-run r cs name id (id_of-Pairs r name id v e ne) in
    (rw (id_of, kept.0) refl, rw (name_of, kept.1) kept.2)

-- From the empty registry on, any history keeps the map of names in step with the entries: each
-- valid name once, under the id that counts its place.
pub run-Inv : (r : ContentRegistry) (cs : List Call) → Inv r → Inv (run r cs)
unfolding run step
run-Inv r [] v = v
run-Inv r (registers name ∷ cs) v =
    run-Inv (register_content r name).0 cs (register_content-Inv r name v)
run-Inv r (buries id ∷ cs) v = run-Inv (tombstone r id).0 cs (tombstone-Inv r id v)
