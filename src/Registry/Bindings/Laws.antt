-- ===== src/Registry/Bindings/Laws.antt =====
-- The two maps of a UUID index mirror each other.
use voxel.Base.{
  ◌≡◌, refl, ◌↔◌, inl, inr, true, false, not, ◌||◌, Option, none, some, arith, ◌==◌, Bool-cases,
}
use voxel.Base.Assoc.{
  find, contains, emplace, erase, Decides, text_eq-Decides, ==-Decides, find-emplace, find-erase,
}
use voxel.Identity.{Uuid, EntityHandle, handle_valid}
use voxel.Registry.Bindings.{UuidIndex, empty_index, uuid_eq, bind, unbind}

pub uuid_eq-Decides : Decides uuid_eq
unfolding uuid_eq
uuid_eq-Decides u v = ground (arith, text_eq-Decides u.bytes v.bytes)

-- A UUID is bound to a handle exactly when the handle is bound to it.
abbrev pub Mirrors : UuidIndex → Type 0
Mirrors x =
    (u : Uuid) (h : EntityHandle)
    → (find uuid_eq u x.by_uuid ≡ some h) ↔ (find ◌==◌ h.bits x.by_handle ≡ some u)

pub empty_index-Mirrors : Mirrors empty_index
unfolding find
empty_index-Mirrors u h = ground arith

-- The outcomes of a binding.
pub data Bound (x : UuidIndex) (u : Uuid) (h : EntityHandle) : Type 0 where
  refused : bind x u h ≡ (x, false) → Bound x u h
  bound :
      find uuid_eq u x.by_uuid ≡ none
      → find ◌==◌ h.bits x.by_handle ≡ none
      → bind x u h ≡ (
        record {
          by_uuid = emplace uuid_eq u h x.by_uuid;
          by_handle = emplace ◌==◌ h.bits u x.by_handle;
        },
        true,
      )
      → Bound x u h

pub binding : (x : UuidIndex) (u : Uuid) (h : EntityHandle) → Bound x u h
unfolding bind contains
binding x u h =
    elim (Bool-cases
      (not (handle_valid h) || contains uuid_eq u x.by_uuid || contains ◌==◌ h.bits x.by_handle)) [
        | inl y ↦ refused (rw (bind, y) refl)
        | inr n ↦ bound (ground arith) (ground arith) (rw (bind, n) refl)
      ]

Mirrors-emplace :
    (x : UuidIndex) (u v : Uuid) (h g : EntityHandle)
    → Mirrors x
    → find uuid_eq u x.by_uuid ≡ none
    → find ◌==◌ h.bits x.by_handle ≡ none
    → (find uuid_eq v (emplace uuid_eq u h x.by_uuid) ≡ some g)
      ↔ (find ◌==◌ g.bits (emplace ◌==◌ h.bits u x.by_handle) ≡ some v)
Mirrors-emplace x u v h g m nu nh =
    let a = find-emplace uuid_eq uuid_eq-Decides u v h x.by_uuid nu in
    let b = find-emplace ◌==◌ ==-Decides h.bits g.bits u x.by_handle nh in
    let c = m v g in
    let d = m u g in let e = uuid_eq-Decides u v in let f = ==-Decides h.bits g.bits in ground arith

-- Binding keeps the maps mirrored.
pub bind-Mirrors :
    (x : UuidIndex) (u : Uuid) (h : EntityHandle) → Mirrors x → Mirrors (bind x u h).0
bind-Mirrors x u h m = elim (binding x u h) [
  | refused q ↦ rw q m
  | bound nu nh q ↦ rw q (λ v g. Mirrors-emplace x u v h g m nu nh)
]

-- The outcomes of an unbinding.
pub data Unbound (x : UuidIndex) (h : EntityHandle) : Type 0 where
  missing : find ◌==◌ h.bits x.by_handle ≡ none → unbind x h ≡ (x, false) → Unbound x h
  unbound :
      (u : Uuid)
      → find ◌==◌ h.bits x.by_handle ≡ some u
      → unbind x h ≡ (
        record { by_uuid = erase uuid_eq u x.by_uuid; by_handle = erase ◌==◌ h.bits x.by_handle },
        true,
      )
      → Unbound x h

unbinding_of :
    (x : UuidIndex) (h : EntityHandle) (o : Option Uuid)
    → find ◌==◌ h.bits x.by_handle ≡ o
    → Unbound x h
unfolding unbind
unbinding_of x h none e = missing e (rw (unbind, e) refl)
unbinding_of x h (some u) e = unbound u e (rw (unbind, e) refl)

pub unbinding : (x : UuidIndex) (h : EntityHandle) → Unbound x h
unbinding x h = unbinding_of x h (find ◌==◌ h.bits x.by_handle) refl

Mirrors-erase :
    (x : UuidIndex) (u v : Uuid) (h g : EntityHandle)
    → Mirrors x
    → find ◌==◌ h.bits x.by_handle ≡ some u
    → (find uuid_eq v (erase uuid_eq u x.by_uuid) ≡ some g)
      ↔ (find ◌==◌ g.bits (erase ◌==◌ h.bits x.by_handle) ≡ some v)
Mirrors-erase x u v h g m here =
    let a = find-erase uuid_eq uuid_eq-Decides u v x.by_uuid in
    let b = find-erase ◌==◌ ==-Decides h.bits g.bits x.by_handle in
    let c = m v g in
    let d = m u h in let e = uuid_eq-Decides u v in let f = ==-Decides h.bits g.bits in ground arith

-- Unbinding keeps the maps mirrored.
pub unbind-Mirrors : (x : UuidIndex) (h : EntityHandle) → Mirrors x → Mirrors (unbind x h).0
unbind-Mirrors x h m = elim (unbinding x h) [
  | missing e q ↦ rw q m
  | unbound u e q ↦ rw q (λ v g. Mirrors-erase x u v h g m e)
]
