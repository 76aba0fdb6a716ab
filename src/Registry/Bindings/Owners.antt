-- ===== src/Registry/Bindings/Owners.antt =====
-- Who owns what after a history of bindings and unbindings of a UUID index, and what its lookups make
-- of that.
use voxel.Base.{
  ◌≡◌, refl, sym, ap, ◌∙◌, subst, ◌≢◌, ◌↔◌, ◌⊎◌, inl, inr, Bool, true, false, Option, none, some,
  List, [], ◌∷◌, arith, ◌==◌, if◌then◌else◌, Bool-cases, Option-cases, some_inj,
}
use voxel.Base.Assoc.{find, contains, emplace, erase, find-emplace, find-erase}
use voxel.Identity.{Uuid, EntityHandle, invalid_handle, handle_valid, handle_index}
use voxel.Registry.Bindings.{UuidIndex, empty_index, uuid_eq, bind, unbind, resolve, uuid_of}
use voxel.Registry.Bindings.Laws.{
  Mirrors, empty_index-Mirrors, bind-Mirrors, unbind-Mirrors, uuid_eq-Decides, missing, unbound,
  unbinding,
}
use voxel.Registry.Slots.{Slots, is_live}

pub data Action : Type 0 where
  binds : Uuid → EntityHandle → Action
  unbinds : EntityHandle → Action

-- The index after a history, the newest action in front.
unfoldable pub index_after : List Action → UuidIndex
index_after [] = empty_index
index_after (binds u h ∷ acts) = (bind (index_after acts) u h).0
index_after (unbinds h ∷ acts) = (unbind (index_after acts) h).0

-- A UUID owns a handle from a binding of the two on, at which the handle was valid and neither was
-- taken, until an unbinding of the handle.
unfoldable pub Owns : List Action → Uuid → EntityHandle → Type 0
Owns [] u h = ⊥
Owns (binds v g ∷ acts) u h =
    Owns acts u h
    ⊎ ((v ≡ u)
        × (g ≡ h)
        × (handle_valid g ≡ true)
        × ((w : EntityHandle) → Owns acts v w → ⊥)
        × ((w : Uuid) → Owns acts w g → ⊥))
Owns (unbinds g ∷ acts) u h = Owns acts u h × (g ≢ h)

-- What decides a binding.
data Verdict (x : UuidIndex) (u : Uuid) (h : EntityHandle) : Type 0 where
  accepted :
      handle_valid h ≡ true
      → find uuid_eq u x.by_uuid ≡ none
      → find ◌==◌ h.bits x.by_handle ≡ none
      → (bind x u h).0 ≡ record {
        by_uuid = emplace uuid_eq u h x.by_uuid;
        by_handle = emplace ◌==◌ h.bits u x.by_handle;
      }
      → Verdict x u h
  invalid : handle_valid h ≡ false → (bind x u h).0 ≡ x → Verdict x u h
  uuid_taken :
      (w : EntityHandle) → find uuid_eq u x.by_uuid ≡ some w → (bind x u h).0 ≡ x → Verdict x u h
  handle_taken :
      (w : Uuid) → find ◌==◌ h.bits x.by_handle ≡ some w → (bind x u h).0 ≡ x → Verdict x u h

contains-some :
    {K V : Type 0} (eqb : K → K → Bool) (k : K) (m : List (K × V)) (v : V)
    → find eqb k m ≡ some v
    → contains eqb k m ≡ true
unfolding contains
contains-some eqb k m v e = rw (contains, e) refl

contains-none :
    {K V : Type 0} (eqb : K → K → Bool) (k : K) (m : List (K × V))
    → find eqb k m ≡ none
    → contains eqb k m ≡ false
unfolding contains
contains-none eqb k m e = rw (contains, e) refl

verdict : (x : UuidIndex) (u : Uuid) (h : EntityHandle) → Verdict x u h
unfolding bind
verdict x u h = elim (Bool-cases (handle_valid h)) [
  | inr v ↦ invalid v (rw v refl)
  | inl v ↦ elim (Option-cases (find uuid_eq u x.by_uuid)) [
    | inr (w, e) ↦ uuid_taken w e (rw (v, contains-some uuid_eq u x.by_uuid w e) refl)
    | inl nu ↦ elim (Option-cases (find ◌==◌ h.bits x.by_handle)) [
      | inr (w, e) ↦ handle_taken w e (
          rw (v, contains-none uuid_eq u x.by_uuid nu, contains-some ◌==◌ h.bits x.by_handle w e)
            refl)
      | inl nh ↦ accepted v nu nh (
          rw (v, contains-none uuid_eq u x.by_uuid nu, contains-none ◌==◌ h.bits x.by_handle nh)
            refl)
    ]
  ]
]

-- The index and the owners tell the same.
Tells : UuidIndex → List Action → Type 0
Tells x acts = (u : Uuid) (h : EntityHandle) → (find uuid_eq u x.by_uuid ≡ some h) ↔ Owns acts u h

clash_of : {A : Type 0} {o : Option A} {v : A} → o ≡ none → o ≡ some v → ⊥
clash_of e f = ground (arith, e, f)

module _ (x : UuidIndex) (acts : List Action) (mirrors : Mirrors x) (tells : Tells x acts) where
  -- A binding that is refused gives nobody anything.
  none_new :
      (v : Uuid) (g : EntityHandle)
      → ((handle_valid g ≡ true)
          → ((w : EntityHandle) → Owns acts v w → ⊥)
          → ((w : Uuid) → Owns acts w g → ⊥)
          → ⊥)
      → Tells x (binds v g ∷ acts)
  unfolding Tells Owns
  none_new v g refused u h = (
    λ e. inl ((tells u h).0 e),
    λ o. elim o [
      | inl old ↦ (tells u h).1 old
      | inr (pu, ph, valid, free, spare) ↦ absurd (refused valid free spare)
    ],
  )

  owns : (u : Uuid) (h : EntityHandle) → find uuid_eq u x.by_uuid ≡ some h → Owns acts u h
  unfolding Tells
  owns u h e = (tells u h).0 e

  found : (u : Uuid) (h : EntityHandle) → Owns acts u h → find uuid_eq u x.by_uuid ≡ some h
  unfolding Tells
  found u h o = (tells u h).1 o

  some_new :
      (v : Uuid) (g : EntityHandle) (y : UuidIndex)
      → handle_valid g ≡ true
      → find uuid_eq v x.by_uuid ≡ none
      → find ◌==◌ g.bits x.by_handle ≡ none
      → ((u : Uuid)
          → find uuid_eq u y.by_uuid ≡ (if uuid_eq v u then some g else find uuid_eq u x.by_uuid))
      → Tells y (binds v g ∷ acts)
  unfolding Tells Owns
  some_new v g y valid nu nh e u h = (
    λ at. elim (Bool-cases (uuid_eq v u)) [
      | inl same ↦
          let here : some g ≡ some h =
            ap (λ b. if b then some g else find uuid_eq u x.by_uuid) (sym same) ∙ sym (e u) ∙ at in
          inr (
            (uuid_eq-Decides v u).0 same,
            some_inj g h here,
            valid,
            λ w o. clash_of nu (found v w o),
            λ w o. clash_of nh ((mirrors w g).0 (found w g o)),
          )
      | inr other ↦ inl (
          owns u h
            (ap (λ b. if b then some g else find uuid_eq u x.by_uuid) (sym other) ∙ sym (e u) ∙ at))
    ],
    λ o. elim o [
      | inl old ↦ elim (Bool-cases (uuid_eq v u)) [
        | inl same ↦ absurd (
            clash_of nu (
              subst (λ t. find uuid_eq t x.by_uuid ≡ some h) (sym ((uuid_eq-Decides v u).0 same))
                (found u h old)))
        | inr other ↦
            e u ∙ ap (λ b. if b then some g else find uuid_eq u x.by_uuid) other ∙ found u h old
      ]
      | inr (pu, ph, valid', free, spare) ↦
          e u
          ∙ ap (λ b. if b then some g else find uuid_eq u x.by_uuid) ((uuid_eq-Decides v u).1 pu)
          ∙ ap some ph
    ],
  )

  bind-Tells : (v : Uuid) (g : EntityHandle) → Tells (bind x v g).0 (binds v g ∷ acts)
  bind-Tells v g = elim (verdict x v g) [
    | invalid bad q ↦ rw q (none_new v g (λ valid free spare. clash valid bad))
    | uuid_taken w e q ↦ rw q (none_new v g (λ valid free spare. free w (owns v w e)))
    | handle_taken w e q ↦
        rw q (none_new v g (λ valid free spare. spare w (owns w g ((mirrors w g).1 e))))
    | accepted valid nu nh q ↦
        rw q (
          some_new v g _ valid nu nh (λ u. find-emplace uuid_eq uuid_eq-Decides v u g x.by_uuid nu))
  ]
    where
      clash : {b : Bool} → b ≡ true → b ≡ false → ⊥
      clash t f = cc

  unbind-Tells : (g : EntityHandle) → Tells (unbind x g).0 (unbinds g ∷ acts)
  unfolding Tells Owns
  unbind-Tells g u h = elim (unbinding x g) [
    | missing e q ↦ rw q (
      λ at. (
        owns u h at,
        λ same.
            clash_of e
              (subst (λ t. find ◌==◌ t.bits x.by_handle ≡ some u) (sym same) ((mirrors u h).0 at)),
      ),
      λ (o, other). found u h o,
    )
    | unbound v e q ↦
        let step = find-erase uuid_eq uuid_eq-Decides v u x.by_uuid in
        rw q (
          λ at. (owns u h (kept v e at), λ same. unowned v e at same),
          λ (o, other). (step ∙ still v e o other),
        )
  ]
    where
      kept :
          (v : Uuid)
          → find ◌==◌ g.bits x.by_handle ≡ some v
          → find uuid_eq u (erase uuid_eq v x.by_uuid) ≡ some h
          → find uuid_eq u x.by_uuid ≡ some h
      kept v e at = let step = find-erase uuid_eq uuid_eq-Decides v u x.by_uuid in ground arith

      unowned :
          (v : Uuid)
          → find ◌==◌ g.bits x.by_handle ≡ some v
          → find uuid_eq u (erase uuid_eq v x.by_uuid) ≡ some h
          → g ≡ h
          → ⊥
      unowned v e at same =
          let mine =
            subst (λ t. find ◌==◌ t.bits x.by_handle ≡ some u) (sym same)
              ((mirrors u h).0 (kept v e at)) in
          let one : v ≡ u = some_inj v u (sym e ∙ mine) in
          clash_of
            (find-erase uuid_eq uuid_eq-Decides v u x.by_uuid
              ∙ ap (λ b. if b then none else find uuid_eq u x.by_uuid)
                  ((uuid_eq-Decides v u).1 one))
            at

      still :
          (v : Uuid)
          → find ◌==◌ g.bits x.by_handle ≡ some v
          → Owns acts u h
          → g ≢ h
          → (if uuid_eq v u then none else find uuid_eq u x.by_uuid) ≡ some h
      still v e o other = elim (Bool-cases (uuid_eq v u)) [
        | inl same ↦
            let mine : find uuid_eq u x.by_uuid ≡ some g =
              subst (λ t. find uuid_eq t x.by_uuid ≡ some g) ((uuid_eq-Decides v u).0 same)
                ((mirrors v g).1 e) in
            absurd (other (some_inj g h (sym mine ∙ found u h o)))
        | inr apart ↦ rw apart (found u h o)
      ]

index_after-Mirrors : (acts : List Action) → Mirrors (index_after acts)
unfolding index_after
index_after-Mirrors [] = empty_index-Mirrors
index_after-Mirrors (binds u h ∷ acts) =
    bind-Mirrors (index_after acts) u h (index_after-Mirrors acts)
index_after-Mirrors (unbinds h ∷ acts) =
    unbind-Mirrors (index_after acts) h (index_after-Mirrors acts)

empty_index-Tells : Tells empty_index []
unfolding Tells Owns find
empty_index-Tells u h = (λ e. clash_of refl e, λ o. absurd o)

index_after-Tells : (acts : List Action) → Tells (index_after acts) acts
unfolding index_after
index_after-Tells [] = empty_index-Tells
index_after-Tells (binds u h ∷ acts) =
    bind-Tells (index_after acts) acts (index_after-Mirrors acts) (index_after-Tells acts) u h
index_after-Tells (unbinds h ∷ acts) =
    unbind-Tells (index_after acts) acts (index_after-Mirrors acts) (index_after-Tells acts) h

not_invalid : (h : EntityHandle) → handle_valid h ≡ true → invalid_handle ≢ h
unfolding handle_valid handle_index
not_invalid h valid e =
    let bad : handle_valid invalid_handle ≡ false = refl in
    let good : handle_valid invalid_handle ≡ true =
      subst (λ t. handle_valid t ≡ true) (sym e) valid in
    cc

resolved :
    (x : UuidIndex) (u : Uuid) (h : EntityHandle) (a : Slots)
    → handle_valid h ≡ true
    → (resolve x u a ≡ h) ↔ ((find uuid_eq u x.by_uuid ≡ some h) × (is_live a h ≡ true))
unfolding resolve
resolved x u h a valid = let d = not_invalid h valid in ground arith

read_back :
    (x : UuidIndex) (u : Uuid) (h : EntityHandle) (a : Slots)
    → (uuid_of x h a ≡ some u) ↔ ((find ◌==◌ h.bits x.by_handle ≡ some u) × (is_live a h ≡ true))
unfolding uuid_of
read_back x u h a = ground arith

-- After any history of bindings and unbindings, and for any state of the allocator: a UUID resolves to
-- a valid handle exactly when it owns the handle and the handle is alive, and the handle reads the UUID
-- back exactly then. To own it means that the two were bound when the handle was valid and neither was
-- owned or an owner, and that the handle was not unbound since.
pub resolve_iff :
    (acts : List Action) (u : Uuid) (h : EntityHandle) (a : Slots)
    → handle_valid h ≡ true
    → ((resolve (index_after acts) u a ≡ h) ↔ (Owns acts u h × (is_live a h ≡ true)))
      × ((uuid_of (index_after acts) h a ≡ some u) ↔ (Owns acts u h × (is_live a h ≡ true)))
unfolding Tells
resolve_iff acts u h a valid =
    let x = index_after acts in
    let (to, from) = index_after-Tells acts u h in
    let (over, back) = index_after-Mirrors acts u h in
    let (go, come) = resolved x u h a valid in
    let (read, readable) = read_back x u h a in
    (
      (λ e. (to (go e).0, (go e).1), λ (o, live). come (from o, live)),
      (λ e. (to (back (read e).0), (read e).1), λ (o, live). readable (over (from o), live)),
    )
