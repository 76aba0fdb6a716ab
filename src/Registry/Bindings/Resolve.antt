-- ===== src/Registry/Bindings/Resolve.antt =====
-- The two resolve paths of a UUID index.
use voxel.Base.{◌≡◌, refl, sym, ap, ◌∙◌, true, false, none, some, arith, ◌==◌, if◌then◌else◌}
use voxel.Base.Assoc.{find, find-emplace, find-erase}
use voxel.Identity.{Uuid, EntityHandle, invalid_handle, handle_valid, handle_index}
use voxel.Registry.Slots.{Slots, is_live, live_slot}
use voxel.Registry.Bindings.{UuidIndex, uuid_eq, bind, unbind, resolve}
use voxel.Registry.Bindings.Laws.{
  Mirrors, uuid_eq-Decides, refused, bound, binding, missing, unbound, unbinding,
}

pub invalid-dead : (a : Slots) → is_live a invalid_handle ≡ false
unfolding is_live live_slot handle_valid handle_index
invalid-dead a = refl

emplaced :
    (x y : UuidIndex) (u v : Uuid) (h : EntityHandle) (a : Slots)
    → find uuid_eq v y.by_uuid ≡ (if uuid_eq u v then some h else find uuid_eq v x.by_uuid)
    → is_live a h ≡ true
    → resolve y v a ≡ (if uuid_eq u v then h else resolve x v a)
unfolding resolve
emplaced x y u v h a e l = ground (arith, e, l)

-- A binding that is accepted resolves to its handle while the handle is alive, and every other
-- UUID resolves as before.
pub resolve-bind :
    (x : UuidIndex) (u v : Uuid) (h : EntityHandle) (a : Slots)
    → (bind x u h).1 ≡ true
    → is_live a h ≡ true
    → resolve (bind x u h).0 v a ≡ (if uuid_eq u v then h else resolve x v a)
resolve-bind x u v h a ok l = elim (binding x u h) [
  | refused q ↦ absurd (not_true (sym (ap (λ t. t.1) q) ∙ ok))
  | bound nu nh q ↦
      rw q (emplaced x _ u v h a (find-emplace uuid_eq uuid_eq-Decides u v h x.by_uuid nu) l)
]
  where
    not_true : false ≡ true → ⊥
    not_true e = cc

erased :
    (x y : UuidIndex) (u v : Uuid) (h : EntityHandle) (a : Slots)
    → Mirrors x
    → find ◌==◌ h.bits x.by_handle ≡ some u
    → find uuid_eq v y.by_uuid ≡ (if uuid_eq u v then none else find uuid_eq v x.by_uuid)
    → resolve y v a ≡ (if (resolve x v a).bits == h.bits then invalid_handle else resolve x v a)
unfolding resolve
erased x y u v h a m here e =
    let c = m v h in let d = m u h in let f = uuid_eq-Decides u v in ground (arith, e)

unbound_handle :
    (x : UuidIndex) (v : Uuid) (h : EntityHandle) (a : Slots)
    → Mirrors x
    → find ◌==◌ h.bits x.by_handle ≡ none
    → resolve x v a ≡ (if (resolve x v a).bits == h.bits then invalid_handle else resolve x v a)
unfolding resolve
unbound_handle x v h a m e = let c = m v h in ground (arith, e)

-- After an unbinding nothing resolves to the handle any more; every UUID that resolved elsewhere
-- still does.
pub resolve-unbind :
    (x : UuidIndex) (v : Uuid) (h : EntityHandle) (a : Slots)
    → Mirrors x
    → resolve (unbind x h).0 v a
      ≡ (if (resolve x v a).bits == h.bits then invalid_handle else resolve x v a)
resolve-unbind x v h a m = elim (unbinding x h) [
  | missing e q ↦ rw q (unbound_handle x v h a m e)
  | unbound u e q ↦ rw q (erased x _ u v h a m e (find-erase uuid_eq uuid_eq-Decides u v x.by_uuid))
]
