-- ===== src/Registry/Bindings.antt =====
-- UuidIndex of src/world/registry.hpp. The keys of m_byUuid are compared by uuidLess, which leaves
-- two UUIDs unordered exactly when their bytes are the same: here by their bytes. A handle is found
-- under its bits.
pub mod Laws
pub mod Resolve
pub mod Owners
use voxel.Base.{
  ℕ, zero, suc, ◌+◌, ◌-◌, ◌*◌, ◌/◌, ◌%◌, ◌^◌, ◌≤◌, ◌<◌, bit_and, bit_or, bit_xor, ◌≡◌, refl, sym,
  ap, ◌∙◌, subst, ◌≢◌, ◌↔◌, ◌⊎◌, inl, inr, Bool, true, false, not, ◌&&◌, ◌||◌, Option, none, some,
  List, [], ◌∷◌, ◌++◌, map, append_assoc, append-nil, arith, dec_lt, dec_le, ℕ_discrete, ltb, leb,
  ◌==◌, if◌then◌else◌, ltb→lt, lt→ltb, ltb-false→le, ==_iff, ==_refl, Bool-cases, Bool-agree,
  Option-cases, length, get_elem?, get_or, set, replicate, All, length-append, length-set,
  length-replicate, get_or-append_right, get_or-append_left, get_or-append_last, get_or-set_self,
  get_or-set_ne, get_or-replicate, eq_of_get_or, All-get_or, All-append, All-set, take, drop,
  take-append, drop-append, set-append, eq_tabulate, ◌>>=◌, ◌>>◌, reject, >>=-eq-some, reject->>,
  some_inj,
}
use voxel.Base.Assoc.{find, contains, emplace, erase, text_eq}
use voxel.Identity.{Uuid, EntityHandle, invalid_handle, handle_valid}
use voxel.Registry.Slots.{Slots, is_live}

unfoldable pub uuid_eq : Uuid → Uuid → Bool
uuid_eq u v = text_eq u.bytes v.bytes

pub record UuidIndex : Type 0 where
  pub by_uuid : List (Uuid × EntityHandle)
  pub by_handle : List (ℕ × Uuid)

abbrev pub empty_index : UuidIndex
empty_index = record { by_uuid = []; by_handle = [] }

unfoldable pub bind : UuidIndex → Uuid → EntityHandle → UuidIndex × Bool
bind x u h =
    if not (handle_valid h) || contains uuid_eq u x.by_uuid || contains ◌==◌ h.bits x.by_handle
    then (x, false)
    else (
      record {
        by_uuid = emplace uuid_eq u h x.by_uuid;
        by_handle = emplace ◌==◌ h.bits u x.by_handle;
      },
      true,
    )

unfoldable pub unbind : UuidIndex → EntityHandle → UuidIndex × Bool
unbind x h = elim (find ◌==◌ h.bits x.by_handle) [
  | none ↦ (x, false)
  | some u ↦ (
    record { by_uuid = erase uuid_eq u x.by_uuid; by_handle = erase ◌==◌ h.bits x.by_handle },
    true,
  )
]

unfoldable pub resolve : UuidIndex → Uuid → Slots → EntityHandle
resolve x u a = elim (find uuid_eq u x.by_uuid) [
  | none ↦ invalid_handle
  | some h ↦ if not (is_live a h) then invalid_handle else h
]

unfoldable pub uuid_of : UuidIndex → EntityHandle → Slots → Option Uuid
uuid_of x h a = if not (is_live a h) then none else find ◌==◌ h.bits x.by_handle
